-- ===== src/Tests/Heap.antt =====
-- Requests of a thread with a context.
use project_delta.Prelude.{ℕ, ◌+◌, ◌^◌, ◌≡◌, ◌⊎◌, refl, arith, true, some}
use project_delta.Build.{debug, returns}
use project_delta.EngineTypes.{ThreadArena, worker}
use project_delta.Arena.{thread_arena_allocate, total_space, bump}
use project_delta.Word.{align}
use project_delta.ThreadContext.{Globals, Contexts, generic, is_main_thread}
use project_delta.Engine.{CHeap, Result, persistent, allocate, allocate_in, free}
use project_delta.Engine.Heap.{arena_of, free-allocate}
use project_delta.Tests.Platform.{counting}
use project_delta.Tests.Contexts.{zero_contexts}

abbrev heap : CHeap (counting true)
heap = record { malloc = λ w n. (2 ^ 42, w); free = λ w p. w }

abbrev storage : ThreadArena
storage = record {
  backing_memory = 2 ^ 40 + 4096;
  capacity = 2 ^ 26;
  offset = 100;
  max_capacity = 2 ^ 31;
}

abbrev contexts : Contexts
contexts = record zero_contexts {
  main_context = record zero_contexts.main_context { persistent_storage = storage };
}

-- The main thread is at work, or worker 1 is.
abbrev at_work : ℕ → Globals
at_work i = record {
  master_slab_start = 2 ^ 40;
  master_slab_end = 2 ^ 41;
  thread_count = 4;
  worker_count = 3;
  thread_contexts = 2 ^ 40;
  current = some i;
  contexts = record contexts {
    worker_context = λ j. record (zero_contexts.worker_context j) {
      generic = record (zero_contexts.worker_context j).generic { type = worker; thread_ix = j };
    };
  };
}

abbrev served : Result (counting true)
served = record {
  ptr = 2 ^ 40 + 4200;
  globals = record (at_work 0) {
    contexts = record (at_work 0).contexts {
      main_context = record contexts.main_context {
        persistent_storage = record storage { offset = 124 };
      };
    };
  };
  world = 0;
}

served_lem :
    allocate (counting true) heap debug 20 persistent (2 ^ 3) (at_work 0) 0 ≡ returns served
unfolding allocate allocate_in is_main_thread generic thread_arena_allocate bump total_space align
served_lem = refl

free-allocate_example :
    (served.ptr ≡ 0) ⊎ ((w : ℕ) → free (counting true) heap (at_work 0) served.ptr w ≡ w)
unfolding arena_of is_main_thread generic
free-allocate_example =
    free-allocate (counting true) heap (at_work 0) 0 persistent 20 3 0 served refl (λ e. refl)
      (record { above = omega arith; below = omega arith })
      (record { shift = omega arith; room = omega arith; cursor = omega arith }) served_lem
