-- ===== src/Engine/Slab.antt =====
-- Where the arenas of a started engine lie, for Allocate and Free (Engine/src/delta/core/engine.cpp).
use project_delta.Prelude.{
  ℕ, zero, suc, ◌+◌, ◌*◌, ◌^◌, ◌≤◌, ◌≡◌, ap, refl, arith, true, some, ◌<◌, ◌⊎◌,
}
use project_delta.Build.{Build, debug, returns}
use project_delta.Pal.{Pal}
use project_delta.Arena.Block.{Fits}
use project_delta.EngineTypes.{ThreadArena}
use project_delta.ThreadContext.{
  Globals, Contexts, generic, is_custom_allocated, is_main_thread, thread_context_initialize,
  master_pool_size,
}
use project_delta.ThreadContext.Place.{fresh_arena}
use project_delta.ThreadContext.Ready.{IsReady, start, array_lem, thread_context_initialize-IsReady}
use project_delta.Engine.{AllocationType, transient, persistent, CHeap, Result, allocate, free}
use project_delta.Engine.Heap.{arena_of, InSlab, free-allocate}

-- The arena lies inside the slab, with its cursor inside the arena.
abbrev IsRoomy : Globals → ThreadArena → Type 0
IsRoomy g a = InSlab g a × (a.offset ≤ a.max_capacity)

-- An arena that starts at `p` and may grow to `m` bytes.
fresh-IsRoomy :
    (g : Globals) (a : ThreadArena) (p b m : ℕ)
    → a ≡ fresh_arena p b m
    → g.master_slab_start ≤ p
    → p + m ≤ g.master_slab_end
    → IsRoomy g a
fresh-IsRoomy g a p b m e lo hi =
    let start = ap (λ x. x.backing_memory) e in
    let size = ap (λ x. x.max_capacity) e in
    (
      record { above = omega (arith, start, lo); below = omega (arith, start, size, hi) },
      omega (arith, ap (λ x. x.offset) e),
    )

module _ {page_size n start array : ℕ} {g : Globals} (r : IsReady page_size n start array g) where
  transient-IsRoomy : (i : ℕ) → i ≤ n → IsRoomy g (arena_of g i transient)
  unfolding arena_of generic
  transient-IsRoomy zero h =
      fresh-IsRoomy g _ (start + array) _ _ r.main_at.place.arena (omega (arith, r.slab_start))
        (omega (arith, r.slab_end))
  transient-IsRoomy (suc i) h =
      fresh-IsRoomy g _ (start + array + suc i * 2 ^ 35) _ _
        (r.worker_at (suc i) (omega arith) h).place.arena (omega (arith, r.slab_start))
        (omega (arith, r.slab_end, h))

  arena_of-IsRoomy : (i : ℕ) (type : AllocationType) → i ≤ n → IsRoomy g (arena_of g i type)
  unfolding arena_of
  arena_of-IsRoomy i transient h = transient-IsRoomy i h
  arena_of-IsRoomy i persistent h =
      fresh-IsRoomy g _ (start + array + 2 ^ 30) _ _ r.main_at.storage (omega (arith, r.slab_start))
        (omega (arith, r.slab_end))

  arena_of-Fits :
      (i : ℕ) (type : AllocationType) (size shift : ℕ)
      → i ≤ n
      → shift < 64
      → g.master_slab_end + 2 ^ shift + size ≤ 2 ^ 64
      → Fits (arena_of g i type) size shift
  arena_of-Fits i type size shift h small room =
      let (inside, cursor) = arena_of-IsRoomy i type h in
      record { shift = small; room = omega (arith, inside.below, room); cursor = cursor }

  main_thread_is : (i : ℕ) → i ≡ 0 → is_main_thread (record g { current = some i }) ≡ true
  unfolding is_main_thread generic
  main_thread_is zero e = ground (arith, r.main_at.index)
  main_thread_is (suc i) e = absurd (omega (arith, e))

module _ (pal : Pal) (heap : CHeap pal) (build : Build)
    (commits : (w : pal.World) (p n : ℕ) → 0 < (pal.memory_commit w p n).0) (k n : ℕ)
    (w : pal.World) where
  -- The address behind the reservation.
  abbrev behind : ℕ
  behind = start pal build commits k n w + master_pool_size (n + 1) (2 ^ k)

  -- With fewer than 2 ^ 28 threads, pages of `2 ^ k` bytes up to 2 ^ 32 and a reservation that is not null
  -- and does not wrap, where every commit succeeds ThreadContext_Initialize returns, and with the
  -- contexts that it makes: in a debug build a block that Allocate gives to any of the threads from its
  -- transient arena, or to the main thread from its persistent one, is null or left alone by Free, for
  -- a request that does not wrap; a block behind the slab goes to `::free`; but the one that starts
  -- right behind it does not.
  pub thread_context_initialize-free :
      k ≤ 32
      → n + 1 < 2 ^ 28
      → 0 < start pal build commits k n w
      → behind < 2 ^ 64
      → (count_offset : ℕ) (memory : Contexts)
      → (g : Globals) × (w' : pal.World) × (thread_context_initialize pal build
            (n + 1)
            (2 ^ k)
            count_offset
            memory
            w
          ≡ returns (g, w'))
        × ((i : ℕ) (type : AllocationType) (size shift : ℕ) (v : pal.World) (r : Result pal)
            → i ≤ n
            → (type ≡ persistent → i ≡ 0)
            → shift < 64
            → behind + 2 ^ shift + size ≤ 2 ^ 64
            → allocate pal heap debug size type (2 ^ shift) (record g { current = some i }) v
              ≡ returns r
            → (r.ptr ≡ 0) ⊎ ((v : pal.World) → free pal heap g r.ptr v ≡ v))
        × ((ptr : ℕ) (v : pal.World) → behind < ptr → free pal heap g ptr v ≡ heap.free v ptr)
        × ((v : pal.World) → free pal heap g behind v ≡ v)
  unfolding free is_custom_allocated arena_of
  thread_context_initialize-free hk hn positive small count_offset memory =
      let (g, w', e, r, _) =
        thread_context_initialize-IsReady pal build commits k n w hk hn positive small count_offset
          memory in
      let (_, pool) = array_lem pal build commits k n w hk hn in
      let end : g.master_slab_end ≡ behind = omega (arith, r.slab_end, pool) in
      (
        g,
        w',
        e,
        λ i type size shift v q h main_thread low room asked.
            let inside = (arena_of-IsRoomy r i type h).0 in
            free-allocate pal heap (record g { current = some i }) i type size shift v q refl
              (λ p. main_thread_is r i (main_thread p))
              (record { above = inside.above; below = inside.below })
              (arena_of-Fits r i type size shift h low (omega (arith, end, room))) asked,
        λ ptr v over. ground (arith, end, over),
        λ v. ground (arith, end, r.slab_start),
      )
