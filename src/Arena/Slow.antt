-- ===== src/Arena/Slow.antt =====
-- The slow path of ThreadArena_Allocate: when it commits more pages, and what comes of it.
use project_delta.Prelude.{ℕ, ◌+◌, ◌^◌, ◌≤◌, ◌<◌, ◌↔◌, ◌≡◌, ◌≢◌, refl, arith, Bool, true, false}
use project_delta.Word.{add64}
use project_delta.Build.{Build, debug, returns}
use project_delta.Pal.{Pal}
use project_delta.EngineTypes.{ThreadArena}
use project_delta.Arena.{
  aligned_address, total_space, space_in_pages, Allocated, locked, bump, grown, grow,
  thread_arena_allocate,
}
use project_delta.Arena.Block.{Fits, aligned-IsRoundedUp, total_space-end, total_space-lt}

module _ (pal : Pal) where
  grown-null_iff :
      (a : ThreadArena) (aligned total bytes : ℕ) (c : Bool × pal.World)
      → 0 < aligned
      → ((grown pal a aligned total bytes c).ptr ≡ 0) ↔ (c.0 ≡ true)
  unfolding grown
  grown-null_iff a aligned total bytes (true, w) h = ground arith
  grown-null_iff a aligned total bytes (false, w) h = ground arith

  locked-true_iff :
      (p : ℕ × pal.World) (bytes : ℕ)
      → ((locked pal p bytes).0 ≡ true) ↔ ((p.0 ≢ 0) × ((pal.memory_lock p.1 p.0 bytes).0 ≡ true))
  unfolding locked
  locked-true_iff (p, w) bytes = ground arith

module _ (pal : Pal) (page_size : ℕ) (a : ThreadArena) (size k : ℕ) (w : pal.World) where
  abbrev total : ℕ
  total = total_space a size (2 ^ k)

  abbrev bytes : ℕ
  bytes = space_in_pages page_size a total

  abbrev committed : ℕ × pal.World
  committed = pal.memory_commit w (add64 a.backing_memory a.capacity) bytes

  -- When a request asks for more than the arena's capacity, the new pages are committed, and the
  -- call returns null exactly if committing them and then locking them both succeed.
  pub slow_path_null_iff :
      Fits a size k
      → 0 < a.backing_memory
      → a.offset + total ≤ a.max_capacity
      → a.capacity < total
      → (r : Allocated pal) × (thread_arena_allocate pal debug page_size a size (2 ^ k) w
          ≡ returns r)
        × ((r.ptr ≡ 0)
            ↔ ((committed.0 ≢ 0) × ((pal.memory_lock committed.1 committed.0 bytes).0 ≡ true)))
  unfolding thread_arena_allocate grow
  slow_path_null_iff f pos room over =
      let aligned = aligned_address a (2 ^ k) in
      let rounded = aligned-IsRoundedUp a size k f in
      let null =
        grown-null_iff pal a aligned total bytes (locked pal committed bytes)
          (omega (arith, rounded)) in
      let lock = locked-true_iff pal committed bytes in
      (
        grow pal page_size a aligned total w,
        ground (arith, total_space-lt a size k f),
        (λ e. lock.0 (null.0 e), λ e. null.1 (lock.1 e)),
      )

  -- A block may end beyond the committed memory: where the request alone is no larger than the
  -- capacity but runs past it from the cursor, the block is handed out and no page is committed.
  pub allocate_uncommitted :
      (build : Build)
      → Fits a size k
      → a.offset + total ≤ a.max_capacity
      → total ≤ a.capacity
      → a.capacity < a.offset + total
      → (r : Allocated pal) × (thread_arena_allocate pal build page_size a size (2 ^ k) w
          ≡ returns r)
        × (r.world ≡ w)
        × (r.arena.capacity ≡ a.capacity)
        × (a.backing_memory + r.arena.capacity < r.ptr + size)
  unfolding thread_arena_allocate bump
  allocate_uncommitted build f room fits past = (
    bump pal a (aligned_address a (2 ^ k)) total w,
    ground (arith, total_space-lt a size k f),
    refl,
    refl,
    omega (arith, total_space-end a size k f),
  )
