-- ===== src/Arena/Linear.antt =====
-- ThreadArena_Allocate as a linear allocator: the blocks of a run of requests do not overlap.
use project_delta.Prelude.{
  ℕ, ◌+◌, ◌^◌, ◌%◌, ◌≤◌, ◌<◌, ltb, if◌then◌else◌, ◌≡◌, ◌↔◌, ◌⊎◌, inl, inr, refl, arith, Bool-cases,
  Bool, true, false,
}
use mathlib.Core.Path.{subst}
use project_delta.Word.Align.{IsRoundedUp, IsRoundedUp-unique}
use project_delta.Word.{add64}
use project_delta.Build.{debug, returns, aborted}
use project_delta.Pal.{Pal}
use project_delta.EngineTypes.{ThreadArena}
use project_delta.Arena.{
  aligned_address, total_space, Allocated, bump, grown, grow, thread_arena_allocate,
}
use project_delta.Arena.Block.{Fits, aligned-IsRoundedUp, total_space-end, total_space-lt}

-- What a request does to an arena: nothing, or a block of `size` bytes from the cursor on.
pub record IsBlock {pal : Pal} (a : ThreadArena) (size k : ℕ) (r : Allocated pal) : Type 0 where
  pub aligned : r.ptr % 2 ^ k ≡ 0
  pub from : a.backing_memory + a.offset ≤ r.ptr
  pub near : r.ptr < a.backing_memory + a.offset + 2 ^ k
  pub to : r.ptr + size ≡ a.backing_memory + r.arena.offset
  pub within : r.arena.offset ≤ a.max_capacity
  pub same_zone :
      (r.arena.backing_memory ≡ a.backing_memory) × (r.arena.max_capacity ≡ a.max_capacity)

abbrev pub Serves : {pal : Pal} → ThreadArena → ℕ → ℕ → Allocated pal → Type 0
Serves a size k r = ((r.ptr ≡ 0) × (r.arena ≡ a)) ⊎ IsBlock a size k r

module _ (pal : Pal) (a : ThreadArena) (size k : ℕ) (f : Fits a size k) where
  open pal use {World}

  abbrev aligned : ℕ
  aligned = aligned_address a (2 ^ k)

  abbrev pub total : ℕ
  total = total_space a size (2 ^ k)

  bump-IsBlock :
      (c : ℕ) (w : World)
      → a.offset + total ≤ a.max_capacity
      → IsBlock a size k (bump pal (record a { capacity = c }) aligned total w)
  unfolding bump
  bump-IsBlock c w room =
      let rounded = aligned-IsRoundedUp a size k f in
      let lt = total_space-lt a size k f in
      record {
        aligned = rounded.multiple;
        from = rounded.above;
        near = rounded.least;
        to = omega (arith, lt, total_space-end a size k f);
        within = omega (arith, lt);
        same_zone = (refl, refl);
      }

  grown-Serves :
      (bytes : ℕ) (c : Bool × World)
      → a.offset + total ≤ a.max_capacity
      → Serves a size k (grown pal a aligned total bytes c)
  unfolding grown
  grown-Serves bytes (true, w) room = inl (refl, refl)
  grown-Serves bytes (false, w) room = inr (bump-IsBlock (add64 a.capacity bytes) w room)

  module _ (page_size : ℕ) (w : World) where
    -- What is returned once the assertion has passed.
    abbrev served : Allocated pal
    served =
        if ltb a.capacity total
        then grow pal page_size a aligned total w
        else bump pal a aligned total w

    served-Serves : a.offset + total ≤ a.max_capacity → Serves a size k served
    unfolding grow
    served-Serves room = elim (Bool-cases (ltb a.capacity total)) [
      | inl more ↦ rw more (grown-Serves _ _ room)
      | inr enough ↦ rw enough (inr (bump-IsBlock a.capacity w room))
    ]

    -- A debug build stops at a request exactly when the block that starts at the first address from the
    -- cursor on that is a multiple of the alignment would end behind the zone of the arena.
    pub thread_arena_allocate-aborted_iff :
        (p : ℕ)
        → IsRoundedUp (a.backing_memory + a.offset) (2 ^ k) p
        → (thread_arena_allocate pal debug page_size a size (2 ^ k) w ≡ aborted)
          ↔ (a.backing_memory + a.max_capacity < p + size)
    unfolding thread_arena_allocate
    thread_arena_allocate-aborted_iff p r = ground (
      arith,
      total_space-lt a size k f,
      total_space-end a size k f,
      IsRoundedUp-unique r (aligned-IsRoundedUp a size k f),
    )

    returned :
        {r : Allocated pal}
        → thread_arena_allocate pal debug page_size a size (2 ^ k) w ≡ returns r
        → (a.offset + total ≤ a.max_capacity) × (served ≡ r)
    unfolding thread_arena_allocate
    returned h = ground (arith, total_space-lt a size k f)

    -- In a debug build a request that returns either returns null and leaves the arena as it was,
    -- or returns a block that is aligned, starts at the cursor but for the padding, and ends at the
    -- new cursor, within the arena.
    pub thread_arena_allocate-Serves :
        {r : Allocated pal}
        → thread_arena_allocate pal debug page_size a size (2 ^ k) w ≡ returns r
        → Serves a size k r
    thread_arena_allocate-Serves h =
        let (room, e) = returned h in subst (Serves a size k) e (served-Serves room)
