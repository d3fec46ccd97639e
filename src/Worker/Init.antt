-- ===== src/Worker/Init.antt =====
-- Worker_Init and Worker_Shutdown of Engine/src/delta/core/Worker.cpp, over the threads of
-- Engine/src/delta/platform/os_win32.cpp and the operators `new` of Engine/include/delta/core/memory.h.
use project_delta.Prelude.{
  ℕ, zero, suc, ◌+◌, ◌*◌, ◌==◌, ◌||◌, ◌&&◌, not, if◌then◌else◌, List, [], ◌∷◌,
}
use project_delta.Word.{u32}
use project_delta.Build.{Build}
use project_delta.Build.Ran.{Ran, ran, undefined, ◌>>=◌, of_outcome, or_undefined}
use project_delta.Engine.{AllocationType, transient, persistent, CHeap, allocate}
use project_delta.ThreadContext.{Globals, generic, set_generic, thread_context_get_for_index}
use project_delta.Win32.{Win32}
use project_delta.Win32.Naming.{thread_set_name}
use project_delta.Win32.Layer.{IsServing, layer, with_world}
use project_delta.Win32.Threads.{
  Process, store, thread_create, thread_assign_physical_core, thread_join_multiple,
}

-- "Worker"
abbrev pub worker_name : List ℕ
worker_name = 87 ∷ 111 ∷ 114 ∷ 107 ∷ 101 ∷ 114 ∷ []

module _ (sys : Win32) where
  -- The process, the globals of ThreadContext.cpp and the two variables of Worker.cpp.
  pub record Workers : Type 0 where
    pub process : Process sys
    pub globals : Globals
    pub s_worker_count : ℕ
    pub s_threads : ℕ

  unfoldable pub worker_shutdown : Workers → Workers
  worker_shutdown s = record s {
    process = thread_join_multiple sys s.s_threads s.s_worker_count s.process;
  }

  module _ (build : Build) (h : IsServing sys) where
    -- `::malloc` and `::free`
    abbrev pub c_heap : CHeap (layer sys build h)
    c_heap = record {
      malloc = λ p size. with_world sys p (sys.malloc p.world size);
      free = λ p address. record p { world = sys.free p.world address };
    }

    -- `operator new(size, type)`
    unfoldable pub new : AllocationType → ℕ → Workers → Ran (ℕ × Workers)
    new type size s = do
      r ← of_outcome (allocate (layer sys build h) c_heap build size type 8 s.globals s.process)
      ran (r.ptr, record s { globals = r.globals; process = r.world })

    -- `worker_proc` is the address of WorkerProc.
    module _ (worker_proc : ℕ) where
      -- `info.fn` and `info.args`
      unfoldable pub write_info : ℕ → ℕ → Workers → Workers
      write_info info i s =
          let args = thread_context_get_for_index s.globals (i + 1) in
          record s { process = store sys (store sys s.process info worker_proc) (info + 8) args }

      -- `s_Threads[i]` and the context's handle are set, and the thread is given its core, through the
      -- handle, and its name.
      unfoldable pub place_worker : ℕ → ℕ → Workers → Ran Workers
      place_worker i handle s = do
        let stored = store sys s.process (s.s_threads + 8 * i) handle
        let own = record (generic s.globals.contexts (i + 1)) { thread_handle = handle }
        let contexts = set_generic s.globals.contexts (i + 1) own
        placed ←
            if handle == 0
            then undefined
            else or_undefined (thread_assign_physical_core sys handle (u32 (i + 1)) stored)
        ran (record s {
          process = thread_set_name sys handle worker_name placed;
          globals = record s.globals { contexts = contexts };
        })

      -- The body of the loop.
      unfoldable pub start_worker : ℕ → ℕ → Workers → Ran Workers
      start_worker cs i s = do
        let info = cs + 16 * i
        (address, s1) ← new persistent 8 (write_info info i s)
        (handle, p) ← or_undefined (thread_create sys info (address, s1.process))
        place_worker i handle (record s1 { process = p })

      -- The loop, with as many workers to go as the first argument says.
      unfoldable pub start_workers : ℕ → ℕ → ℕ → Workers → Ran Workers
      start_workers zero cs i s = ran s
      start_workers (suc n) cs i s = do s' ← start_worker cs i s; start_workers n cs (i + 1) s'

      -- Writing to an array that could not be made is undefined.
      unfoldable pub worker_init : ℕ → Workers → Ran Workers
      worker_init count s = do
        (threads, s1) ← new persistent (8 * count) (record s { s_worker_count = count })
        (cs, s2) ← new transient (16 * count) (record s1 { s_threads = threads })
        (if (threads == 0 || cs == 0) && not (count == 0)
            then undefined
            else start_workers count cs 0 s2)
