-- ===== src/Tests/Batch.antt =====
-- Batches of jobs for the workers of the tests of the contexts, and a run of a small crew.
use project_delta.Prelude.{
  ℕ, ◌+◌, ◌*◌, ◌^◌, ◌≡◌, refl, arith, ◌==◌, ◌∙◌, List, [], ◌∷◌, Option, some, true, false, ◌++◌,
}
use mathlib.Core.Bool.{Bool-set}
use mathlib.Core.Logic.Or
use mathlib.Core.List.{Mem, mem-cons, not-mem-nil}
use mathlib.Core.List.Perm
use project_delta.Prelude.Int.{pos, ◌+ℤ◌, ◌-ℤ◌}
use project_delta.Word.{align}
use project_delta.Build.{Outcome, debug, release, returns}
use project_delta.EngineTypes.{ThreadArena, Job, TaskQueue}
use project_delta.EngineTypes.Sizes.{thread_execution_context_size}
use project_delta.TaskQueue.{
  Store, task_queue_steal, task_queue_push, payload_cell, task_cell, and_ℤ, element, exchange_top,
}
use project_delta.ThreadContext.{
  set_generic, set_worker, generic, is_main_thread, aligned_context_array_size,
}
use project_delta.Scheduler.{
  State, push_all, push_to, wake, put_queue, sync_loop, turn, run_task_in, process_task_batch, sync,
  set_count,
}
use project_delta.Scheduler.All.{total}
use project_delta.Scheduler.Batch.{IsBatched, process_task_batch-IsBatched}
use project_delta.Scheduler.Crew.{AllHold}
use project_delta.Scheduler.Once.{run_batch, sync-IsSynced}
use project_delta.Scheduler.Start.{ready-AllHold, ready-main_thread}
use project_delta.Scheduler.Sync.{IsSynced}
use project_delta.Tests.Contexts.{Ready, ready, globals, zero_contexts}

-- A task moves the cursor and leaves it there.
abbrev spoil : Job → ThreadArena → ThreadArena
spoil j a = record a { offset = a.offset + j.payload }

abbrev jobs : List Job
jobs =
    record { task = 11; payload = 1 }
    ∷ record { task = 12; payload = 2 }
    ∷ record { task = 13; payload = 3 }
    ∷ []

abbrev HaveTasks : List Job → Type 0
HaveTasks [] = Unit {0}
HaveTasks (j ∷ js) = ((j.task == 0) ≡ false) × HaveTasks js

pub Mem-HaveTasks : (js : List Job) → HaveTasks js → (x : Job) → Mem x js → (x.task == 0) ≡ false
Mem-HaveTasks [] h x m = absurd (not-mem-nil m)
Mem-HaveTasks (j ∷ js) h x m =
    Or.elim (Bool-set (x.task == 0) false) (mem-cons.0 m) (λ e. rw e h.0) (Mem-HaveTasks js h.1 x)

pushed_job : (x : Job) → Mem x (jobs ++ []) → (x.task == 0) ≡ false
pushed_job = Mem-HaveTasks (jobs ++ []) (refl, (refl, (refl, tt)))

abbrev memory : Store
memory = record { word = λ a. 0; calls = [] }

abbrev start : ℕ
start = 2 ^ 40 + aligned_context_array_size 4 4096

array_is : aligned_context_array_size 4 4096 ≡ 4096
unfolding aligned_context_array_size align thread_execution_context_size
array_is = refl

abbrev fresh : State
fresh = record { globals = globals; store = memory; signals = [] }

fresh-AllHold : AllHold 12 512 start 3 0 fresh (λ i. [])
unfolding Ready globals
fresh-AllHold = ready-AllHold ready.3 (omega (arith, array_is)) memory []

fresh_main : is_main_thread globals ≡ true
unfolding Ready globals
fresh_main = ready-main_thread ready.3 (omega (arith, array_is)) memory []

abbrev Pushed : Type 0
Pushed =
    (s : State) × (process_task_batch release jobs fresh ≡ returns s)
    × IsBatched 12 512 start 3 3 jobs (λ i. []) (set_count 3 fresh) s
    × (s.globals.contexts.main_context.dep_counter.count ≡ 3)

pushed : Pushed
pushed =
    process_task_batch-IsBatched (omega arith) (omega arith) release jobs 0 fresh (λ i. [])
      fresh_main fresh-AllHold (omega arith) (omega arith)

sync-IsSynced_example :
    (s : State) × (sync spoil release ((3 + 2) * (total 3 pushed.2.lists + 1)) pushed.0
      ≡ returns (some s))
    × IsSynced 12 512 start 3 3 pushed.2.lists pushed.0 s
unfolding Ready globals set_count project_delta.Scheduler.All.all
sync-IsSynced_example =
    sync-IsSynced spoil release 12 512 start 3 3 (omega arith) pushed.2.lists pushed.0 (omega arith)
      pushed.2.held (pushed.2.kept.current ∙ ready.3.current)
      (pushed.2.kept.index ∙ ready.3.main_at.index) (pushed.2.kept.threads ∙ ready.3.thread_count)
      (λ x m. (refl, pushed_job x ((Perm.mem_iff pushed.2.same_jobs).0 m)))

-- Two workers with rings of eight places.
abbrev ring : ℕ → TaskQueue
ring base = record {
  top = pos 0;
  bottom = pos 0;
  size = pos 8;
  mask = pos 7;
  tasks = base;
  payloads = base + 64;
  dep_counter_ptr = 0;
}

abbrev crew : State
crew = record {
  globals = record {
    master_slab_start = 0;
    master_slab_end = 0;
    thread_count = 3;
    worker_count = 2;
    thread_contexts = 0;
    current = some 0;
    contexts = record zero_contexts {
      worker_context = λ i. record (zero_contexts.worker_context i) {
        task_queue = ring (i * 1024);
        is_asleep = i == 2;
        sleep_semaphore = 90 + i;
      };
    };
  };
  store = memory;
  signals = [];
}

outcome : Outcome (Option State) → List Job × List ℕ
outcome (returns (some s)) = (s.store.calls, s.signals)
outcome _ = ([], [])

-- The jobs are called in the order of the workers, and the sleeping worker is woken once.
crew_runs : outcome (run_batch spoil debug 20 jobs crew) ≡ (jobs, 92 ∷ [])
unfolding outcome run_batch process_task_batch is_main_thread generic sync push_all push_to wake
    put_queue set_count sync_loop turn task_queue_steal task_queue_push payload_cell task_cell
    run_task_in set_generic set_worker ◌+ℤ◌ ◌-ℤ◌ and_ℤ element exchange_top
crew_runs = refl
