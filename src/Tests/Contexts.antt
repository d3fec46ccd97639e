-- ===== src/Tests/Contexts.antt =====
-- The execution contexts of a main thread and three workers.
use project_delta.Prelude.{ℕ, zero, suc, ◌+◌, ◌^◌, ◌≤◌, ◌<◌, ◌≡◌, ◌⊎◌, some, refl, arith, false}
use project_delta.Prelude.Int.{pos}
use project_delta.Word.{align}
use project_delta.EngineTypes.Sizes.{thread_execution_context_size}
use project_delta.Build.{debug, returns}
use project_delta.Pal.{Pal}
use project_delta.EngineTypes.{GenericExecutionContext, main}
use project_delta.ThreadContext.{
  Contexts, Globals, master_pool_size, thread_context_initialize, aligned_context_array_size,
}
use project_delta.ThreadContext.Ready.{IsReady, thread_context_initialize-IsReady}
use project_delta.Engine.{persistent, AllocationType, CHeap, Result, allocate, free}
use project_delta.Engine.Slab.{thread_context_initialize-free}
use project_delta.Tests.Platform.{counting}

-- An address that is null is chosen by the system.
abbrev address : ℕ → ℕ
address zero = 2 ^ 41
address (suc p) = suc p

abbrev granting : Pal
granting = record (counting false) { memory_commit = λ w p n. (address p, w + n) }

address_pos : (p : ℕ) → 0 < address p
address_pos zero = omega arith
address_pos (suc p) = omega arith

abbrev zero_generic : GenericExecutionContext
zero_generic = record {
  type = main;
  thread_ix = 0;
  thread_handle = 0;
  page_coordinator = record {
    virtual_address_base = 0;
    commited_offset = 0;
    reserved_capacity = 0;
    page_size = 0;
  };
  transient_arena = record { backing_memory = 0; capacity = 0; offset = 0; max_capacity = 0 };
  per_thread_timer = record { freq = pos 0; base_start_time = pos 0 };
}

-- Committed memory is zero at first.
abbrev pub zero_contexts : Contexts
zero_contexts = record {
  main_context = record {
    generic = zero_generic;
    persistent_storage = record { backing_memory = 0; capacity = 0; offset = 0; max_capacity = 0 };
    dep_counter = record { count = 0 };
  };
  worker_context = λ i. record {
    generic = zero_generic;
    task_queue = record {
      top = pos 0;
      bottom = pos 0;
      size = pos 0;
      mask = pos 0;
      tasks = 0;
      payloads = 0;
      dep_counter_ptr = 0;
    };
    sleep_semaphore = 0;
    is_asleep = false;
    should_close = false;
  };
}

pool : master_pool_size 4 4096 ≡ 2 ^ 37 + 4096
unfolding master_pool_size aligned_context_array_size align thread_execution_context_size
pool = refl

unfoldable pub Ready : Type 0
Ready =
    (g : Globals) × (w : ℕ) × (thread_context_initialize granting debug 4 4096 200 zero_contexts 0
      ≡ returns (g, w))
    × IsReady 4096 3 (2 ^ 40) (aligned_context_array_size 4 4096) g
    × (g.thread_contexts ≡ 2 ^ 40)

thread_context_initialize-IsReady_example : Ready
unfolding Ready
thread_context_initialize-IsReady_example =
    thread_context_initialize-IsReady granting debug (λ w p n. address_pos p) 12 3 0 (omega arith)
      (omega arith) (omega arith) (omega (arith, pool)) 200 zero_contexts

pub ready : Ready
unfolding Ready
ready =
    thread_context_initialize-IsReady granting debug (λ w p n. address_pos p) 12 3 0 (omega arith)
      (omega arith) (omega arith) (omega (arith, pool)) 200 zero_contexts

unfoldable pub globals : Globals
unfolding Ready
globals = ready.0

abbrev counted_heap : CHeap granting
counted_heap = record { malloc = λ w n. (2 ^ 42, w); free = λ w p. w + 1 }

abbrev behind_slab : ℕ
behind_slab = 2 ^ 40 + master_pool_size 4 4096

-- `free` counts its calls.
thread_context_initialize-free_example :
    (g : Globals) × (w : ℕ) × (thread_context_initialize granting debug 4 4096 200 zero_contexts 0
      ≡ returns (g, w))
    × ((i : ℕ) (type : AllocationType) (size shift v : ℕ) (r : Result granting)
        → i ≤ 3
        → (type ≡ persistent → i ≡ 0)
        → shift < 64
        → behind_slab + 2 ^ shift + size ≤ 2 ^ 64
        → allocate granting counted_heap debug size type
            (2 ^ shift)
            (record g { current = some i })
            v
          ≡ returns r
        → (r.ptr ≡ 0) ⊎ ((v : ℕ) → free granting counted_heap g r.ptr v ≡ v))
    × ((ptr v : ℕ) → behind_slab < ptr → free granting counted_heap g ptr v ≡ v + 1)
    × ((v : ℕ) → free granting counted_heap g behind_slab v ≡ v)
thread_context_initialize-free_example =
    thread_context_initialize-free granting counted_heap debug (λ w p n. address_pos p) 12 3 0
      (omega arith) (omega arith) (omega arith) (omega (arith, pool)) 200 zero_contexts
