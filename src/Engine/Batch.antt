-- ===== src/Engine/Batch.antt =====
-- A batch of tasks (Engine/src/delta/core/ThreadContext.cpp) in the engine that Engine::Initialize
-- (Engine/src/delta/core/engine.cpp) has started.
use mathlib.Core.List.{Perm, Mem}
use project_delta.Prelude.{
  ℕ, ◌+◌, ◌*◌, ◌^◌, ◌≤◌, ◌<◌, ◌≡◌, arith, List, [], ◌++◌, length, some, true, false, ◌==◌,
}
use project_delta.Build.{Build, returns}
use project_delta.Build.Ran.{ran}
use project_delta.EngineTypes.{ThreadArena, Job}
use project_delta.TaskQueue.{Store}
use project_delta.ThreadContext.{Contexts}
use project_delta.Scheduler.{State}
use project_delta.Scheduler.Crew.{AllHold}
use project_delta.Scheduler.Once.{run_batch, run_batch_once}
use project_delta.Scheduler.Start.{fresh-Holds}
use project_delta.Scheduler.Steal.{IsCallable}
use project_delta.Engine.Session.{Session, engine_initialize}
use project_delta.Engine.Running.{IsRunning, engine_initialize_cases}
use project_delta.Engine.Reached.{slices}
use project_delta.Engine.Started.{IsAble}
use project_delta.Win32.{Win32, CoreInfo}
use project_delta.Win32.Cores.{IsLaid, cores}
use project_delta.Win32.Start.{buffer_of, answer_of}
use project_delta.Win32.Layer.{IsServing}
use project_delta.Win32.Threads.{Process}
use project_delta.Worker.Room.{HasArenas-is_main_thread}

module _ (sys : Win32) (build : Build) (h : IsServing sys) (worker_proc n : ℕ) where
  abbrev pub loaded : Session sys build h → Store → State
  loaded s store = record { globals = s.workers.globals; store = store; signals = [] }

  running-AllHold :
      (s : Session sys build h) (store : Store)
      → IsRunning sys build h worker_proc n s
      → AllHold 12 512 (slices n s.workers.globals) n 0 (loaded s store) (λ i. [])
  running-AllHold s store r = record {
    holds = λ i lo hi. fresh-Holds (r.manned.holds i lo hi).queue (omega (arith, r.low, hi)) store;
    workers = r.worker_count;
  }

  run_batch_running :
      (s : Session sys build h) (store : Store) (effect : Job → ThreadArena → ThreadArena)
      (js : List Job)
      → IsRunning sys build h worker_proc n s
      → 0 < n
      → n < 32
      → length js ≤ 512
      → ((x : Job) → Mem x js → IsCallable build x)
      → (s' : State) × (called : List Job) × (run_batch effect build
            ((n + 2) * (length js + 1))
            js
            (loaded s store)
          ≡ returns (some s'))
        × (s'.store.calls ≡ store.calls ++ called)
        × Perm called js
        × (s'.globals.contexts.main_context.dep_counter.count ≡ length js)
  run_batch_running s store effect js r any few short good =
      let (s', called, e, calls, p, _, _, count) =
        run_batch_once effect build 12 512 (slices n s.workers.globals) n 0 js (loaded s store) any
          (omega (arith, few)) (running-AllHold s store r)
          (HasArenas-is_main_thread (2 ^ 22) (2 ^ 22) s.workers.globals r.room) r.room.on
          r.room.index_is r.thread_count (omega (arith, short)) (omega (arith, short)) (omega arith)
          good in
      (s', called, e, calls, p, omega (arith, count, short))

  module _ (count_offset : ℕ) (memory : Contexts) (able : IsAble sys 4096 (n + 1)) where
    -- On a machine with `n + 1` cores, of which one to 31 are for workers, whose records lie one behind
    -- another, with pages of 4096 bytes and a system that gives the memory, the threads and the time
    -- that it is asked for: Engine::Initialize returns, and then a batch of up to 512 jobs, none of
    -- which is null or fails the assertion on it, and a Scheduler_Sync while the workers do nothing
    -- return with every job called exactly once, in some order. The counter of the batch then still has their
    -- number.
    pub initialized_runs_batch :
        (p : Process sys) (records : List CoreInfo) (store : Store)
        (effect : Job → ThreadArena → ThreadArena) (js : List Job)
        → ((buffer_of sys p.world).0 == 0) ≡ false
        → (answer_of sys p.world).0 ≡ true
        → IsLaid (answer_of sys p.world).2 (answer_of sys p.world).1 0 records
        → cores records ≡ n + 1
        → (sys.get_system_info p.world).0.page_size ≡ 4096
        → 0 < n
        → n < 32
        → length js ≤ 512
        → ((x : Job) → Mem x js → IsCallable build x)
        → (s : Session sys build h) × (s' : State) × (called : List Job) × (engine_initialize sys
              build h worker_proc count_offset memory p
            ≡ ran s)
          × (run_batch effect build ((n + 2) * (length js + 1)) js (loaded s store)
              ≡ returns (some s'))
          × (s'.store.calls ≡ store.calls ++ called)
          × Perm called js
          × (s'.globals.contexts.main_context.dep_counter.count ≡ length js)
    initialized_runs_batch p records store effect js given got lies count page any few short good =
        let (s, e, r) =
          (engine_initialize_cases sys build h worker_proc count_offset memory n
              (omega (arith, few)) able p records given got lies count page).0
            few in
        let (s', called, ran_is, calls, perm, count) =
          run_batch_running s store effect js r any few short good in
        (s, s', called, e, ran_is, calls, perm, count)
