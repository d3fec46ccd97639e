-- ===== src/ThreadContext.antt =====
-- The execution contexts of Engine/src/delta/core/ThreadContext.cpp: ThreadContext_Initialize, which
-- cuts the master slab into the array of contexts and a slice for each thread, the getters, and
-- ThreadContext_Shutdown. What the committed array holds at first is an argument. `reinterpret_cast`
-- of context 0 is to MainExecutionContext and of the others to WorkerExecutionContext, so the array
-- is those records.
pub mod Place
pub mod Slots
pub mod Finish
pub mod Ready
pub mod Current
use project_delta.Prelude.{
  ℕ, zero, suc, ◌+◌, ◌-◌, ◌*◌, ◌^◌, ◌==◌, leb, not, ◌&&◌, if◌then◌else◌, Bool, true, false, Option,
  none, some,
}
use project_delta.Word.{add64, mul64, sub32, align}
use project_delta.Build.{Build, Outcome, returns, aborted, assert, ◌>>=◌, ◌>>◌}
use project_delta.Pal.{Pal}
use project_delta.EngineTypes.{
  ThreadPageCoordinator, GenericExecutionContext, MainExecutionContext, WorkerExecutionContext,
  main, worker,
}
use project_delta.EngineTypes.Sizes.{thread_execution_context_size}
use project_delta.MemoryMap
use project_delta.MemoryMap.Main
use project_delta.MemoryMap.Worker
use project_delta.Arena.{initialize_arena, ArenaInit}
use project_delta.TaskQueue.{initialize_queue, QueueInit}

pub record Contexts : Type 0 where
  pub main_context : MainExecutionContext
  pub worker_context : ℕ → WorkerExecutionContext

-- GetExecutionContext<GenericExecutionContext>
unfoldable pub generic : Contexts → ℕ → GenericExecutionContext
generic cs zero = cs.main_context.generic
generic cs (suc i) = (cs.worker_context (suc i)).generic

unfoldable pub set_worker : Contexts → ℕ → WorkerExecutionContext → Contexts
set_worker cs i c = record cs { worker_context = λ j. if j == i then c else cs.worker_context j }

unfoldable pub set_generic : Contexts → ℕ → GenericExecutionContext → Contexts
unfolding set_worker
set_generic cs zero g = record cs { main_context = record cs.main_context { generic = g } }
set_generic cs (suc i) g =
    set_worker cs (suc i) (record (cs.worker_context (suc i)) { generic = g })

-- The file's global variables. `current` is the index of the context that the calling thread's
-- `tl_CurrentThreadContext` points to.
pub record Globals : Type 0 where
  pub master_slab_start : ℕ
  pub master_slab_end : ℕ
  pub thread_count : ℕ
  pub worker_count : ℕ
  pub thread_contexts : ℕ
  pub current : Option ℕ
  pub contexts : Contexts

-- InitializePageCoordinator
unfoldable pub page_coordinator : ℕ → ℕ → ThreadPageCoordinator
page_coordinator page_size base_address = record {
  page_size = page_size;
  virtual_address_base = base_address;
  commited_offset = 0;
  reserved_capacity = MemoryMap.virt_zone_space_length;
}

-- The address of a context, as GetExecutionContext computes it.
abbrev pub context_address : ℕ → ℕ → ℕ
context_address contexts i = add64 contexts (mul64 i thread_execution_context_size)

-- IsCustomAllocated
unfoldable pub is_custom_allocated : Globals → ℕ → Bool
is_custom_allocated g ptr = leb g.master_slab_start ptr && leb ptr g.master_slab_end

-- IsMainThread
unfoldable pub is_main_thread : Globals → Bool
is_main_thread g = elim g.current [
  | none ↦ false
  | some i ↦ elim (generic g.contexts i).type [ main ↦ true | worker ↦ false ]
]

-- The length of the array of contexts in whole pages.
unfoldable pub aligned_context_array_size : ℕ → ℕ → ℕ
aligned_context_array_size thread_count page_size =
    align (mul64 thread_execution_context_size thread_count) page_size

unfoldable pub master_pool_size : ℕ → ℕ → ℕ
master_pool_size thread_count page_size =
    add64 (mul64 (2 ^ 35) thread_count) (aligned_context_array_size thread_count page_size)

module _ (pal : Pal) (build : Build) where
  open pal use {
    World, memory_reserve, memory_commit, memory_lock, memory_release, timer_initialize,
    thread_get_current_handle, sync_create_semaphore,
  }

  -- The body of the first loop.
  unfoldable pub prepare : ℕ → ℕ → ℕ → Contexts → World → Outcome (Contexts × World)
  prepare page_size i cursor cs w = do
    let (timer, w') = timer_initialize w
    let coordinator = page_coordinator page_size cursor
    let old = generic cs i
    a ←
        initialize_arena pal build coordinator MemoryMap.virt_zone_ta_offset
          MemoryMap.virt_zone_ta_baseline MemoryMap.virt_zone_ta_size w'
    returns (
      set_generic cs i (record old {
        per_thread_timer = timer;
        page_coordinator = coordinator;
        transient_arena = a.arena;
      }),
      a.world,
    )

  -- The first loop: `n` contexts from context `i` on.
  unfoldable pub prepare_all : ℕ → ℕ → ℕ → ℕ → Contexts → World → Outcome (Contexts × World)
  prepare_all zero page_size i cursor cs w = returns (cs, w)
  prepare_all (suc n) page_size i cursor cs w = do
    r ← prepare page_size i cursor cs w
    prepare_all n page_size (suc i) (add64 cursor MemoryMap.virt_zone_space_length) r.0 r.1

  -- The block that finishes the main thread's context.
  unfoldable pub finish_main : Contexts → World → Outcome (Contexts × World)
  finish_main cs w = do
    let (handle, w') = thread_get_current_handle w
    let old = cs.main_context
    a ←
        initialize_arena pal build old.generic.page_coordinator Main.virt_zone_ps_offset
          Main.virt_zone_ps_baseline Main.virt_zone_ps_size w'
    returns (
      record cs {
        main_context = record {
          generic = record old.generic { type = main; thread_ix = 0; thread_handle = handle };
          persistent_storage = a.arena;
          dep_counter = record { count = 0 };
        };
      },
      a.world,
    )

  -- The body of the second loop; INVALID_THREAD_HANDLE is 0.
  unfoldable pub finish_worker : ℕ → ℕ → Contexts → World → Outcome (Contexts × World)
  unfolding set_worker
  finish_worker dep_counter i cs w = do
    let (semaphore, w') = sync_create_semaphore w
    let old = cs.worker_context i
    q ←
        initialize_queue pal build old.generic.page_coordinator old.task_queue dep_counter
          Worker.virt_zone_queue_offset Worker.virt_zone_queue_size w'
    returns (
      set_worker cs i (record {
        generic = record old.generic { type = worker; thread_ix = i; thread_handle = 0 };
        task_queue = q.queue;
        sleep_semaphore = semaphore;
        is_asleep = false;
        should_close = false;
      }),
      q.world,
    )

  -- The second loop: `n` workers from context `i` on.
  unfoldable pub finish_workers : ℕ → ℕ → ℕ → Contexts → World → Outcome (Contexts × World)
  finish_workers zero dep_counter i cs w = returns (cs, w)
  finish_workers (suc n) dep_counter i cs w = do
    r ← finish_worker dep_counter i cs w
    finish_workers n dep_counter (suc i) r.0 r.1

  -- ThreadContext_Initialize. A failed lock is only reported. `count_offset` is where the dependency
  -- counter lies in MainExecutionContext. A loop from 1 below `thread_count` makes `thread_count - 1`
  -- turns, none for 0.
  unfoldable pub thread_context_initialize :
      ℕ → ℕ → ℕ → Contexts → World → Outcome (Globals × World)
  thread_context_initialize thread_count page_size count_offset memory w = do
    let pool = master_pool_size thread_count page_size
    let array = aligned_context_array_size thread_count page_size
    let (base_address, w1) = memory_reserve w pool
    assert build (not (base_address == 0))
    let (contexts, w2) = memory_commit w1 base_address array
    assert build (not (contexts == 0))
    let (locked, w3) = memory_lock w2 base_address array
    r ← prepare_all thread_count page_size 0 (add64 base_address array) memory w3
    m ← finish_main r.0 r.1
    f ← finish_workers (thread_count - 1) (add64 contexts count_offset) 1 m.0 m.1
    returns (
      record {
        master_slab_start = base_address;
        master_slab_end = add64 base_address pool;
        thread_count = thread_count;
        worker_count = sub32 thread_count 1;
        thread_contexts = contexts;
        current = some 0;
        contexts = f.0;
      },
      f.1,
    )

  -- ThreadContext_Shutdown
  unfoldable pub thread_context_shutdown : Globals → World → World
  thread_context_shutdown g w = memory_release w g.thread_contexts

-- ThreadContext_GetCurrent, ThreadContext_GetForIndex and ThreadContext_SetCurrent
unfoldable pub thread_context_get_current : Globals → Option ℕ
thread_context_get_current g = g.current

unfoldable pub thread_context_get_for_index : Globals → ℕ → ℕ
thread_context_get_for_index g i = context_address g.thread_contexts i

unfoldable pub thread_context_set_current : Option ℕ → Globals → Globals
thread_context_set_current c g = record g { current = c }
