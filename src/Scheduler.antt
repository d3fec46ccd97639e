-- ===== src/Scheduler.antt =====
-- Scheduler_ProcessTaskBatch and Scheduler_Sync of Engine/src/delta/core/ThreadContext.cpp, called by
-- the main thread while no worker is at work. What a task does to the caller's transient arena is a
-- parameter; a task pushes no tasks.
pub mod Held
pub mod All
pub mod Crew
pub mod Batch
pub mod Turn
pub mod Steal
pub mod Sync
pub mod Once
pub mod Start
use project_delta.Prelude.{
  ℕ, zero, suc, ◌+◌, ◌%◌, ◌==◌, ltb, not, ◌&&◌, if◌then◌else◌, Bool, true, false, Option, none,
  some, List, [], ◌∷◌, ◌++◌, length,
}
use project_delta.Word.{u32}
use project_delta.Build.{Build, Outcome, returns, aborted, assert, ◌>>=◌, ◌>>◌}
use project_delta.EngineTypes.{ThreadArena, Job, TaskQueue}
use project_delta.TaskQueue.{Store, call_job, task_queue_push, task_queue_steal}
use project_delta.ThreadContext.{Globals, generic, set_generic, set_worker, is_main_thread}

-- `signals` are the semaphores released so far, the last one last.
pub record State : Type 0 where
  pub globals : Globals
  pub store : Store
  pub signals : List ℕ

abbrev pub queue_of : State → ℕ → TaskQueue
queue_of s i = (s.globals.contexts.worker_context i).task_queue

unfoldable pub put_queue : ℕ → TaskQueue → State → State
unfolding set_worker
put_queue i q s =
    let c = s.globals.contexts.worker_context i in
    record s {
      globals = record s.globals {
        contexts = set_worker s.globals.contexts i (record c { task_queue = q });
      };
    }

-- `Sync_SignalSemaphore`, if the worker has said that it sleeps.
unfoldable pub wake : ℕ → State → State
wake i s =
    let c = s.globals.contexts.worker_context i in
    if c.is_asleep then record s { signals = s.signals ++ c.sleep_semaphore ∷ [] } else s

-- The body of the loop of Scheduler_ProcessTaskBatch: `i` counts the jobs.
unfoldable pub push_to : ℕ → Job → State → State
push_to ix j s =
    let (q, st) = task_queue_push (queue_of s ix) j s.store in
    wake ix (put_queue ix q (record s { store = st }))

unfoldable pub push_all : List Job → ℕ → State → State
push_all [] i s = s
push_all (j ∷ js) i s = push_all js (i + 1) (push_to (1 + i % s.globals.worker_count) j s)

unfoldable pub set_count : ℕ → State → State
set_count n s =
    let cs = s.globals.contexts in
    record s {
      globals = record s.globals {
        contexts = record cs {
          main_context = record cs.main_context { dep_counter = record { count = n } };
        };
      };
    }

-- Scheduler_ProcessTaskBatch; the two arrays are a list of jobs. The counter has 32 bits.
unfoldable pub process_task_batch : Build → List Job → State → Outcome State
process_task_batch build js s = do
  assert build (is_main_thread s.globals)
  returns (push_all js 0 (set_count (u32 (length js)) s))

-- The index of the calling thread's context. A caller without a context is not modelled: it would
-- read through a null pointer.
abbrev pub current_index : Globals → ℕ
current_index g = elim g.current [ none ↦ 0 | some i ↦ i ]

module _ (effect : Job → ThreadArena → ThreadArena) where
  -- `task(payload)` between the two accesses to the cursor of the arena of context `i`, for a task that
  -- is not null.
  unfoldable pub run_task_in : ℕ → Job → State → State
  run_task_in i j s =
      let c = generic s.globals.contexts i in
      let after = effect j c.transient_arena in
      let back = record after { offset = c.transient_arena.offset } in
      record s {
        globals = record s.globals {
          contexts = set_generic s.globals.contexts i (record c { transient_arena = back });
        };
        store = call_job j s.store;
      }

  abbrev pub run_task : Job → State → State
  run_task j s = run_task_in (current_index s.globals) j s

  -- The body of the loop of Scheduler_Sync, given what TaskQueue_Steal has returned for the queue of
  -- worker `ix`. A call through null ends the process. `next` goes on with `workerIx` and `consecutiveEmptyQueues`.
  unfoldable pub turn :
      Build
      → (ℕ → ℕ → State → Outcome (Option State))
      → ℕ
      → ℕ
      → State
      → Option Job × TaskQueue
      → Outcome (Option State)
  turn build next ix empties s (none, q) =
      next (1 + ix % s.globals.worker_count) (u32 (empties + 1)) (put_queue ix q s)
  turn build next ix empties s (some j, q) = do
    assert build (not (j.task == 0) && not (j.payload == 0))
    (if j.task == 0
        then aborted
        else next (1 + ix % s.globals.worker_count) 0 (run_task j (put_queue ix q s)))

  -- The loop of Scheduler_Sync; `none` means that the fuel ran out.
  unfoldable pub sync_loop : Build → ℕ → ℕ → ℕ → State → Outcome (Option State)
  sync_loop build zero ix empties s = returns none
  sync_loop build (suc fuel) ix empties s = elim (ltb empties s.globals.thread_count) [
    | false ↦ returns (some s)
    | true ↦
        turn build (sync_loop build fuel) ix empties s (task_queue_steal (queue_of s ix) s.store)
  ]

  -- Scheduler_Sync
  unfoldable pub sync : Build → ℕ → State → Outcome (Option State)
  sync build fuel s = do
    assert build ((generic s.globals.contexts (current_index s.globals)).thread_ix == 0)
    sync_loop build fuel 1 0 s
