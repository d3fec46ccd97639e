-- ===== src/Tests/Queue.antt =====
-- Task queues at concrete inputs.
use project_delta.Prelude.{
  ℕ, zero, suc, ap, length, ◌++◌, ◌+◌, ◌^◌, ◌<◌, ◌≡◌, refl, arith, true, none, some, List, [], ◌∷◌,
}
use project_delta.Prelude.Int.{pos}
use project_delta.Build.{debug, returns}
use project_delta.EngineTypes.{ThreadPageCoordinator, Job, TaskQueue}
use project_delta.MemoryMap.Worker
use project_delta.TaskQueue.{
  Store, task_cell, payload_cell, get_job, put_job, QueueInit, initialize_queue, task_queue_steal,
}
use project_delta.TaskQueue.Cells.{IsClear, IsClear-separate}
use project_delta.TaskQueue.Deque.{Op, push, pop, steal}
use project_delta.TaskQueue.Ends.{IsQueue}
use project_delta.TaskQueue.Run.{run_queue, run_deque, run_queue-eq-run_deque}
use project_delta.TaskQueue.Full.{push_jobs, push_jobs-steal}
use project_delta.TaskQueue.Init.{initialize_queue-overlaps, put_job-clobbers}
use project_delta.Tests.Platform.{counting}

abbrev job : ℕ → Job
job n = record { task = n; payload = n + 1000 }

abbrev empty_store : Store
empty_store = record { word = λ _. 0; calls = [] }

-- A ring of four places with room for both arrays.
abbrev small_queue : ℕ → ℕ → TaskQueue
small_queue t b = record {
  top = pos t;
  bottom = pos b;
  size = pos 4;
  mask = pos 3;
  tasks = 64;
  payloads = 96;
  dep_counter_ptr = 0;
}

small_queue-IsQueue : (t n : ℕ) → t + n < 2 ^ 63 → IsQueue (small_queue t (t + n)) 2 t n
small_queue-IsQueue t n h = record {
  ring = record {
    few = omega arith;
    size_is = refl;
    mask_is = refl;
    tasks_end = omega arith;
    payloads_end = omega arith;
  };
  top_is = refl;
  bottom_is = refl;
  small = h;
}

small_queue-IsClear : (hi : ℕ) → IsClear 64 96 2 hi
small_queue-IsClear hi = IsClear-separate 64 96 2 hi (omega arith)

abbrev calls : List Op
calls = push (job 1) ∷ push (job 2) ∷ push (job 3) ∷ pop ∷ steal ∷ pop ∷ steal ∷ []

run_queue-eq-run_deque_example :
    run_queue calls (small_queue 5 5) empty_store
    ≡ none ∷ none ∷ none ∷ some (job 3) ∷ some (job 1) ∷ some (job 2) ∷ none ∷ []
unfolding run_deque
run_queue-eq-run_deque_example =
    run_queue-eq-run_deque calls (small_queue 5 5) 2 5 0 100 empty_store
      (small_queue-IsQueue 5 0 (omega arith)) (small_queue-IsClear 100) (omega arith) (omega arith)
      (omega arith)

abbrev coordinator : ThreadPageCoordinator
coordinator = record {
  virtual_address_base = 2 ^ 40;
  commited_offset = 0;
  reserved_capacity = 2 ^ 35;
  page_size = 4096;
}

-- The memory of a context is zero before InitializeQueue.
abbrev blank : TaskQueue
blank = record {
  top = pos 0;
  bottom = pos 0;
  size = pos 0;
  mask = pos 0;
  tasks = 0;
  payloads = 0;
  dep_counter_ptr = 0;
}

init : QueueInit (counting true)
init = record {
  queue = record {
    top = pos 0;
    bottom = pos 0;
    size = pos 4096;
    mask = pos 4095;
    tasks = 2 ^ 40 + 2 ^ 30;
    payloads = 2 ^ 40 + 2 ^ 30 + 4096;
    dep_counter_ptr = 0;
  };
  world = 65536;
}

init_run :
    initialize_queue
      (counting true)
      debug
      coordinator
      blank
      1234
      Worker.virt_zone_queue_offset
      Worker.virt_zone_queue_size
      0
    ≡ returns init
unfolding initialize_queue init
init_run = refl

initialize_queue-overlaps_example :
    IsQueue init.queue 12 0 0
    × IsClear init.queue.tasks init.queue.payloads 12 512
    × ((i : ℕ)
        → i + 512 < 4096
        → payload_cell init.queue (pos i) ≡ task_cell init.queue (pos (i + 512)))
    × (init.queue.dep_counter_ptr ≡ 0)
initialize_queue-overlaps_example =
    initialize_queue-overlaps (counting true) debug coordinator blank 1234 0 init (omega arith)
      init_run

put_job-clobbers_example :
    (get_job init.queue (pos 3) (put_job init.queue (pos 515) (job 7) empty_store)).payload ≡ 7
put_job-clobbers_example =
    put_job-clobbers (counting true) debug coordinator blank 1234 0 init (omega arith) init_run 3
      (job 7) empty_store (omega arith)

abbrev numbered : ℕ → List Job
numbered zero = []
numbered (suc n) = job n ∷ numbered n

length-numbered : (n : ℕ) → length (numbered n) ≡ n
length-numbered zero = refl
length-numbered (suc n) = ap suc (length-numbered n)

push_jobs-steal_example :
    let (q', s') = push_jobs init.queue (numbered 4096 ++ job 7 ∷ job 8 ∷ job 9 ∷ []) empty_store in
    (q'.bottom ≡ pos 4097)
    × (s'.calls ≡ job 8 ∷ job 9 ∷ [])
    × ((task_queue_steal q' s').0 ≡ some (job 7))
push_jobs-steal_example =
    push_jobs-steal (counting true) debug coordinator blank 1234 0 init (omega arith) init_run
      (numbered 4096) (job 7) (job 8 ∷ job 9 ∷ []) empty_store (length-numbered 4096)
