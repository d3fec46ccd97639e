-- ===== src/Engine/Heap.antt =====
-- Which of the two heaps a block of Allocate (Engine/src/delta/core/engine.cpp) is from, and what Free
-- does with it.
use mathlib.Core.Path.{subst}
use project_delta.Prelude.{
  ℕ, ◌+◌, ◌^◌, ◌≤◌, ◌≡◌, ◌⊎◌, ◌∙◌, inl, inr, refl, sym, ap, arith, true, false, some,
}
use project_delta.Build.{
  Build, debug, release, returns, aborted, ◌>>=◌, >>=-eq-returns, returns-injective,
}
use project_delta.Pal.{Pal}
use project_delta.EngineTypes.{ThreadArena}
use project_delta.Arena.{Allocated, thread_arena_allocate}
use project_delta.Arena.Block.{Fits}
use project_delta.Arena.Linear.{Serves, thread_arena_allocate-Serves}
use project_delta.ThreadContext.{Globals, generic, is_custom_allocated, is_main_thread}
use project_delta.Engine.{
  AllocationType, transient, persistent, CHeap, Result, allocate_in, allocate_for, allocate, free,
}

-- The arena that Allocate takes from in the thread of context `i`.
unfoldable pub arena_of : Globals → ℕ → AllocationType → ThreadArena
arena_of g i transient = (generic g.contexts i).transient_arena
arena_of g i persistent = g.contexts.main_context.persistent_storage

-- The arena lies inside the master slab.
pub record InSlab (g : Globals) (a : ThreadArena) : Type 0 where
  pub above : g.master_slab_start ≤ a.backing_memory
  pub below : a.backing_memory + a.max_capacity ≤ g.master_slab_end

module _ (pal : Pal) (heap : CHeap pal) (g : Globals) where
  kept :
      {a : ThreadArena} {size k : ℕ} {r : Allocated pal}
      → InSlab g a
      → Serves a size k r
      → (r.ptr ≡ 0) ⊎ (is_custom_allocated g r.ptr ≡ true)
  unfolding is_custom_allocated
  kept s (inl (null, _)) = inl null
  kept s (inr b) = inr (ground (arith, s.above, s.below, b.from, b.to, b.within))

  -- What either branch of Allocate hands on from the arena.
  from_arena :
      (page_size : ℕ) {a : ThreadArena} {size k : ℕ} (w : pal.World)
      (after : Allocated pal → Result pal) {r : Result pal}
      → InSlab g a
      → Fits a size k
      → ((x : Allocated pal) → (after x).ptr ≡ x.ptr)
      → (thread_arena_allocate pal debug page_size a size (2 ^ k) w >>= λ x. returns (after x))
        ≡ returns r
      → (r.ptr ≡ 0) ⊎ (is_custom_allocated g r.ptr ≡ true)
  from_arena page_size {a} {size} {k} w after s f same e =
      let (x, ex, ey) = >>=-eq-returns _ (λ x. returns (after x)) e in
      let ptr = sym (same x) ∙ ap (λ y. y.ptr) (returns-injective ey) in
      subst (λ p. (p ≡ 0) ⊎ (is_custom_allocated g p ≡ true)) ptr
        (kept s (thread_arena_allocate-Serves pal a size k f page_size w ex))

  pub allocate-eq :
      (build : Build) (i size alignment : ℕ) (type : AllocationType) (w : pal.World)
      → g.current ≡ some i
      → allocate pal heap build size type alignment g w
        ≡ allocate_in pal heap build i type g size alignment w
  unfolding allocate
  allocate-eq build i size alignment type w on =
      ap (λ c. allocate_for pal heap build c type g size alignment w) on

  custom :
      (i : ℕ) (type : AllocationType) (size k : ℕ) (w : pal.World) (r : Result pal)
      → (type ≡ persistent → is_main_thread g ≡ true)
      → InSlab g (arena_of g i type)
      → Fits (arena_of g i type) size k
      → allocate_in pal heap debug i type g size (2 ^ k) w ≡ returns r
      → (r.ptr ≡ 0) ⊎ (is_custom_allocated g r.ptr ≡ true)
  unfolding allocate_in arena_of
  custom i transient size k w r main_thread s f e = from_arena _ w _ s f (λ x. refl) e
  custom i persistent size k w r main_thread s f e =
      from_arena _ w _ s f (λ x. refl) (rw (main_thread refl) at e)

  -- In a debug build, in a thread with a context, where the arena that serves the thread lies inside the slab and the
  -- request does not wrap, a block that Allocate returns is either null or left alone by Free: the
  -- two heaps are not mixed.
  pub free-allocate :
      (i : ℕ) (type : AllocationType) (size k : ℕ) (w : pal.World) (r : Result pal)
      → g.current ≡ some i
      → (type ≡ persistent → is_main_thread g ≡ true)
      → InSlab g (arena_of g i type)
      → Fits (arena_of g i type) size k
      → allocate pal heap debug size type (2 ^ k) g w ≡ returns r
      → (r.ptr ≡ 0) ⊎ ((w' : pal.World) → free pal heap g r.ptr w' ≡ w')
  unfolding free
  free-allocate i type size k w r on main_thread s f e =
      elim (custom i type size k w r main_thread s f
        (sym (allocate-eq debug i size (2 ^ k) type w on) ∙ e)) [
          | inl null ↦ inl null
          | inr own ↦ inr (λ w'. rw own refl)
        ]

  -- In a thread with a context that is not the main thread a request for persistent memory, the default of
  -- `operator new`, stops a debug build and returns null in a release build.
  allocate_worker :
      (i size alignment : ℕ) (w : pal.World)
      → g.current ≡ some i
      → is_main_thread g ≡ false
      → (allocate pal heap debug size persistent alignment g w ≡ aborted)
        × (allocate pal heap release size persistent alignment g w
            ≡ returns (record { ptr = 0; globals = g; world = w }))
  unfolding allocate_in
  allocate_worker i size alignment w on other = (
    allocate-eq debug i size alignment persistent w on ∙ rw other refl,
    allocate-eq release i size alignment persistent w on ∙ rw other refl,
  )
