-- ===== src/Arena.antt =====
-- The arenas of Engine/src/delta/core/ThreadContext.cpp: InitializeArena, ThreadArena_Allocate and
-- ThreadArena_Reset. An address is a number below 2 ^ 64, and 0 is nullptr.
pub mod Block
pub mod Linear
pub mod Fast
pub mod Run
pub mod Slow
use project_delta.Prelude.{
  ℕ, ◌+◌, ◌-◌, ◌*◌, ◌^◌, ◌%◌, ltb, leb, ◌==◌, if◌then◌else◌, Bool, true, false, not, ◌&&◌, ◌≡◌,
  refl, arith,
}
use project_delta.Word.{u64, add64, sub64, mul64, align}
use project_delta.Build.{Build, Outcome, returns, aborted, ◌>>=◌, ◌>>◌, assert}
use project_delta.Pal.{Pal}
use project_delta.EngineTypes.{ThreadPageCoordinator, ThreadArena}

-- ThreadArena_Reset
unfoldable pub thread_arena_reset : ThreadArena → ThreadArena
thread_arena_reset a = record a { offset = 0 }

-- The local variables of ThreadArena_Allocate.
unfoldable pub current_address : ThreadArena → ℕ
current_address a = add64 a.backing_memory a.offset

unfoldable pub aligned_address : ThreadArena → ℕ → ℕ
unfolding current_address
aligned_address a alignment = align (current_address a) alignment

unfoldable pub total_space : ThreadArena → ℕ → ℕ → ℕ
unfolding aligned_address current_address
total_space a size alignment = add64 (sub64 (aligned_address a alignment) (current_address a)) size

-- Bytes that the slow path commits; `page_size` is that of the current thread's coordinator.
unfoldable pub space_in_pages : ℕ → ThreadArena → ℕ → ℕ
space_in_pages page_size a total = mul64 (align (sub64 total a.capacity) page_size) 2

module _ (pal : Pal) where
  open pal use {World, memory_commit, memory_lock}

  pub record Allocated : Type 0 where
    pub ptr : ℕ
    pub arena : ThreadArena
    pub world : World

  -- `p && Memory_Lock(p, bytes)`: nothing is locked if `p` is null.
  unfoldable pub locked : ℕ × World → ℕ → Bool × World
  locked (p, w) bytes = if p == 0 then (false, w) else memory_lock w p bytes

  -- The end of ThreadArena_Allocate: the block starts at the aligned address.
  unfoldable pub bump : ThreadArena → ℕ → ℕ → World → Allocated
  bump a aligned total w = record {
    ptr = aligned;
    arena = record a { offset = add64 a.offset total };
    world = w;
  }

  -- The slow path, with what Memory_Lock returned.
  unfoldable pub grown : ThreadArena → ℕ → ℕ → ℕ → Bool × World → Allocated
  unfolding bump
  grown a aligned total bytes (true, w) = record { ptr = 0; arena = a; world = w }
  grown a aligned total bytes (false, w) =
      bump (record a { capacity = add64 a.capacity bytes }) aligned total w

  unfoldable pub grow : ℕ → ThreadArena → ℕ → ℕ → World → Allocated
  unfolding grown locked
  grow page_size a aligned total w =
      let bytes = space_in_pages page_size a total in
      grown a aligned total bytes
        (locked (memory_commit w (add64 a.backing_memory a.capacity) bytes) bytes)

  -- ThreadArena_Allocate
  unfoldable pub thread_arena_allocate : Build → ℕ → ThreadArena → ℕ → ℕ → World → Outcome Allocated
  unfolding grow bump
  thread_arena_allocate build page_size a size alignment w = do
    let aligned = aligned_address a alignment
    let total = total_space a size alignment
    assert build (leb (add64 a.offset total) a.max_capacity)
    returns
        (if ltb a.capacity total then grow page_size a aligned total w else bump a aligned total w)

  pub record ArenaInit : Type 0 where
    pub arena : ThreadArena
    pub world : World

  -- InitializeArena
  unfoldable pub initialize_arena :
      Build → ThreadPageCoordinator → ℕ → ℕ → ℕ → World → Outcome ArenaInit
  initialize_arena build page_coord offset baseline max_capacity w = do
    let target = add64 page_coord.virtual_address_base offset
    let (p, w') = memory_commit w target baseline
    assert build (not (p == 0))
    returns (record {
      arena = record {
        backing_memory = target;
        capacity = baseline;
        offset = 0;
        max_capacity = max_capacity;
      };
      world = w';
    })
