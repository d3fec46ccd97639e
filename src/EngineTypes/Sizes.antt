-- ===== src/EngineTypes/Sizes.antt =====
-- `sizeof` of the structures of Engine/src/delta/core/EngineTypes.h on the target (amd64, 8-byte
-- pointers): the fields of a standard-layout structure in order, each at the next multiple of its
-- alignment, and the whole rounded up to the largest alignment.
use Prim.Native.Nat.{max}
use project_delta.Prelude.{ℕ, ◌+◌, ◌≤◌, ◌%◌, ◌≡◌, refl, List, [], ◌∷◌, arith}
use project_delta.Word.{align}

-- Size and alignment.
pub record Shape : Type 0 where
  pub bytes : ℕ
  pub alignment : ℕ

abbrev pub scalar : ℕ → Shape
scalar n = record { bytes = n; alignment = n }

-- A field declared `alignas(n)`.
abbrev pub aligned_as : ℕ → Shape → Shape
aligned_as n s = record { bytes = s.bytes; alignment = n }

unfoldable pub end_offset : ℕ → List Shape → ℕ
unfolding align
end_offset at [] = at
end_offset at (s ∷ ss) = end_offset (align at s.alignment + s.bytes) ss

abbrev pub largest : List Shape → ℕ
largest [] = 1
largest (s ∷ ss) = max s.alignment (largest ss)

-- `struct alignas(n)` of these fields, with `n` as the least alignment.
unfoldable pub struct : ℕ → List Shape → Shape
unfolding end_offset align
struct n ss =
    let a = max n (largest ss) in record { bytes = align (end_offset 0 ss) a; alignment = a }

abbrev pub pointer : Shape
pointer = scalar 8

unfoldable pub thread_page_coordinator : Shape
unfolding struct
thread_page_coordinator = struct 1 (pointer ∷ scalar 8 ∷ scalar 8 ∷ scalar 8 ∷ [])

unfoldable pub thread_arena : Shape
unfolding struct
thread_arena = struct 1 (pointer ∷ scalar 8 ∷ scalar 8 ∷ scalar 8 ∷ [])

-- `delta::platform::Timer`: `alignas(8) uint8_t opaqueData[32]`.
unfoldable pub timer : Shape
timer = record { bytes = 32; alignment = 8 }

unfoldable pub dependency_counter : Shape
unfolding struct
dependency_counter = struct 1 (scalar 4 ∷ [])

unfoldable pub task_queue : Shape
unfolding struct
task_queue = struct 1 (
    aligned_as 64 (scalar 8)
    ∷ aligned_as 64 (scalar 8)
    ∷ aligned_as 64 (scalar 8)
    ∷ scalar 8
    ∷ pointer
    ∷ pointer
    ∷ pointer
    ∷ [])

unfoldable pub generic_execution_context : Shape
unfolding struct thread_page_coordinator thread_arena timer
generic_execution_context =
    struct 64 (scalar 1 ∷ scalar 4 ∷ pointer ∷ thread_page_coordinator ∷ thread_arena ∷ timer ∷ [])

unfoldable pub main_execution_context : Shape
unfolding struct generic_execution_context thread_arena dependency_counter
main_execution_context =
    struct 64 (generic_execution_context ∷ thread_arena ∷ dependency_counter ∷ [])

unfoldable pub worker_execution_context : Shape
unfolding struct generic_execution_context task_queue
worker_execution_context =
    struct 64 (generic_execution_context ∷ task_queue ∷ pointer ∷ scalar 1 ∷ scalar 1 ∷ [])

-- THREAD_EXECUTION_CONTEXT_STRIDE
unfoldable pub thread_execution_context_stride : ℕ
unfolding main_execution_context worker_execution_context
thread_execution_context_stride = max main_execution_context.bytes worker_execution_context.bytes

-- THREAD_EXECUTION_CONTEXT_SIZE: the stride rounded up by `(stride + 63) & ~(63)`.
unfoldable pub thread_execution_context_size : ℕ
unfolding thread_execution_context_stride align
thread_execution_context_size = align thread_execution_context_stride 64

-- Contexts lie a whole number of cache lines apart, and each holds either kind.
pub thread_execution_context_size_lem :
    (thread_execution_context_size ≡ 384)
    × (thread_execution_context_size % 64 ≡ 0)
    × (main_execution_context.bytes ≤ thread_execution_context_size)
    × (worker_execution_context.bytes ≤ thread_execution_context_size)
unfolding thread_execution_context_size
thread_execution_context_size_lem = (refl, refl, omega arith, omega arith)
