-- ===== src/EngineTypes.antt =====
-- Engine/src/delta/core/EngineTypes.h: the records of the engine's threads, and the size of an
-- execution context. Addresses are numbers, 0 is the null pointer; function pointers and handles are
-- addresses. `queue_index_t` is int64_t: signed overflow is undefined in C++, so an integer.
pub mod Sizes
use project_delta.Prelude.{ℕ, Bool}
use project_delta.Prelude.Int.{ℤ}
use project_delta.Pal.{Timer}

pub record ThreadPageCoordinator : Type 0 where
  pub virtual_address_base : ℕ
  pub commited_offset : ℕ
  pub reserved_capacity : ℕ
  pub page_size : ℕ

pub record ThreadArena : Type 0 where
  pub backing_memory : ℕ
  pub capacity : ℕ
  pub offset : ℕ
  pub max_capacity : ℕ

pub record DependencyCounter : Type 0 where
  pub count : ℕ

-- A task function and its payload, as they lie in the two arrays of a queue.
pub record Job : Type 0 where
  pub task : ℕ
  pub payload : ℕ

pub record TaskQueue : Type 0 where
  pub top : ℤ
  pub bottom : ℤ
  pub size : ℤ
  pub mask : ℤ
  pub tasks : ℕ
  pub payloads : ℕ
  pub dep_counter_ptr : ℕ

pub data ThreadType : Type 0 where
  main worker : ThreadType

pub record GenericExecutionContext : Type 0 where
  pub type : ThreadType
  pub thread_ix : ℕ
  pub thread_handle : ℕ
  pub page_coordinator : ThreadPageCoordinator
  pub transient_arena : ThreadArena
  pub per_thread_timer : Timer

pub record MainExecutionContext : Type 0 where
  pub generic : GenericExecutionContext
  pub persistent_storage : ThreadArena
  pub dep_counter : DependencyCounter

pub record WorkerExecutionContext : Type 0 where
  pub generic : GenericExecutionContext
  pub task_queue : TaskQueue
  pub sleep_semaphore : ℕ
  pub is_asleep : Bool
  pub should_close : Bool
