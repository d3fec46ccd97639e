-- ===== src/Engine/Session.antt =====
-- Initialize, Update and Shutdown of Engine/src/delta/core/engine.cpp, over the Win32 layer.
use project_delta.Prelude.{ℕ, ◌==◌, if◌then◌else◌, Bool, true, false, Option, none, some}
use project_delta.Word.{sub32}
use project_delta.Build.{Build, assert}
use project_delta.Build.Ran.{Ran, ran, undefined, ◌>>=◌, of_outcome, or_undefined, or_endless}
use project_delta.MemoryConfig.{
  EngineMemoryConfig, memory_config_initialize, memory_config_shutdown,
}
use project_delta.Arena.{thread_arena_reset}
use project_delta.ThreadContext.{
  Contexts, Globals, generic, set_generic, thread_context_initialize, thread_context_shutdown,
}
use project_delta.Engine.{persistent}
use project_delta.Win32.{Win32}
use project_delta.Win32.Start.{initialize}
use project_delta.Win32.Memory.{get_memory_status}
use project_delta.Win32.Layer.{IsServing, layer}
use project_delta.Win32.Threads.{
  Process, sync_sleep, thread_get_current_handle, thread_assign_physical_core,
}
use project_delta.Worker.Init.{Workers, new, worker_init, worker_shutdown}

module _ (sys : Win32) (build : Build) (h : IsServing sys) where
  -- Context::isRunning, g_MemoryConfig, and what the threads share.
  pub record Session : Type 0 where
    pub is_running : Bool
    pub config : EngineMemoryConfig
    pub workers : Workers sys

  -- The address of WorkerProc, the place of the counter in the main context, and what the memory of
  -- the contexts holds when it is committed.
  module _ (worker_proc count_offset : ℕ) (memory : Contexts) where
    -- The main thread is given the first core, and the workers are started.
    unfoldable pub start_threads : ℕ → Workers sys → Ran (Workers sys)
    start_threads total_threads s = do
      (address, s1) ← new sys build h persistent 8 s
      (th, p) ← or_undefined (thread_get_current_handle sys (address, s1.process))
      p' ← if th == 0 then undefined else or_undefined (thread_assign_physical_core sys th 0 p)
      worker_init sys build h worker_proc (sub32 total_threads 1) (record s1 { process = p' })

    unfoldable pub engine_initialize : Process sys → Ran Session
    engine_initialize p = do
      (info, w1) ← or_endless (initialize sys p.world)
      let (status, w2) = get_memory_status sys w1
      let total_threads = info.cpu_physical_core_count
      c ← of_outcome (
          memory_config_initialize (layer sys build h) build status.physical_installed
            info.os_page_size total_threads (record p { world = w2 }))
      (g, p3) ← of_outcome (
          thread_context_initialize (layer sys build h) build total_threads info.os_page_size
            count_offset memory c.world)
      s ←
          start_threads total_threads
            (record { process = p3; globals = g; s_worker_count = 0; s_threads = 0 })
      ran (record { is_running = true; config = c.config; workers = s })

  -- GetTransientArena and ThreadArena_Reset in a thread whose context is none or that of an index; nullptr
  -- fails the assertion, or is read through.
  unfoldable pub reset_current : Option ℕ → Globals → Ran Globals
  reset_current none g = do _ ← of_outcome (assert build false); undefined
  reset_current (some i) g =
      let c = generic g.contexts i in
      ran (record g {
        contexts =
            set_generic g.contexts i
              (record c { transient_arena = thread_arena_reset c.transient_arena });
      })

  unfoldable pub engine_update : Session → Ran Session
  engine_update s = do
    let slept = sync_sleep sys 100 s.workers.process
    g ← reset_current s.workers.globals.current s.workers.globals
    ran (record s { workers = record s.workers { process = slept; globals = g } })

  unfoldable pub engine_shutdown : Session → Session
  engine_shutdown s =
      let joined = worker_shutdown sys s.workers in
      record s {
        config = memory_config_shutdown;
        workers = record joined {
          process = thread_context_shutdown (layer sys build h) build joined.globals joined.process;
        };
      }
