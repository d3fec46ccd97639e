-- ===== src/ThreadContext/Place.antt =====
-- ThreadContext_Initialize (Engine/src/delta/core/ThreadContext.cpp): where the contexts' arenas and
-- queues lie once it returns.
use project_delta.Prelude.{
  ℕ, zero, suc, ◌+◌, ◌*◌, ◌^◌, ◌<◌, ◌≡◌, ◌≢◌, ◌∙◌, refl, arith, ◌==◌, not, true,
}
use project_delta.Word.{add64}
use project_delta.Build.{assert-true, Build, returns}
use project_delta.Pal.{Pal}
use project_delta.EngineTypes.{ThreadPageCoordinator, ThreadArena, GenericExecutionContext}
use project_delta.MemoryMap
use project_delta.Arena.{initialize_arena}
use project_delta.ThreadContext.{
  Contexts, generic, set_worker, set_generic, page_coordinator, prepare, prepare_all,
}

abbrev pub fresh_arena : ℕ → ℕ → ℕ → ThreadArena
fresh_arena start baseline max_capacity = record {
  backing_memory = start;
  capacity = baseline;
  offset = 0;
  max_capacity = max_capacity;
}

-- The slice of a context starts at `base`: its page coordinator and its transient arena do.
pub record IsPlaced (page_size base : ℕ) (g : GenericExecutionContext) : Type 0 where
  pub coordinator : g.page_coordinator ≡ page_coordinator page_size base
  pub arena :
      g.transient_arena
      ≡ fresh_arena base MemoryMap.virt_zone_ta_baseline MemoryMap.virt_zone_ta_size

pub generic-set_generic :
    (cs : Contexts) (i : ℕ) (g : GenericExecutionContext) → generic (set_generic cs i g) i ≡ g
unfolding generic set_generic set_worker
generic-set_generic cs zero g = refl
generic-set_generic cs (suc i) g = ground arith

pub generic-set_generic_ne :
    (cs : Contexts) (i j : ℕ) (g : GenericExecutionContext)
    → j ≢ i
    → generic (set_generic cs i g) j ≡ generic cs j
unfolding generic set_generic set_worker
generic-set_generic_ne cs zero zero g h = absurd (h refl)
generic-set_generic_ne cs zero (suc j) g h = refl
generic-set_generic_ne cs (suc i) zero g h = refl
generic-set_generic_ne cs (suc i) (suc j) g h = ground (arith, h)

-- The slices from one index on, taken apart and put together at the first.
pub ahead :
    (P : ℕ → ℕ → Type 0) (n i base next : ℕ)
    → next ≡ base + 2 ^ 35
    → P base i
    → ((j : ℕ) → j < n → P (next + j * 2 ^ 35) (suc i + j))
    → (j : ℕ) → j < suc n
    → P (base + j * 2 ^ 35) (i + j)
ahead P n i base next e here later zero h =
    let x : base + 0 * 2 ^ 35 ≡ base = omega arith in
    let y : i + 0 ≡ i = omega arith in rw (x, y) here
ahead P n i base next e here later (suc j) h =
    let x : base + suc j * 2 ^ 35 ≡ next + j * 2 ^ 35 = omega (arith, e) in
    let y : i + suc j ≡ suc i + j = omega arith in rw (x, y) (later j (omega (arith, h)))

pub behind :
    (P : ℕ → ℕ → Type 0) (n i base next : ℕ)
    → next ≡ base + 2 ^ 35
    → ((j : ℕ) → j < suc n → P (base + j * 2 ^ 35) (i + j))
    → P base i × ((j : ℕ) → j < n → P (next + j * 2 ^ 35) (suc i + j))
behind P n i base next e all =
    (rw (x, y) at (all 0 (omega arith)), λ j h. rw (z j, u j) (all (suc j) (omega (arith, h))))
  where
    x : base + 0 * 2 ^ 35 ≡ base
    x = omega arith

    y : i + 0 ≡ i
    y = omega arith

    z : (j : ℕ) → next + j * 2 ^ 35 ≡ base + suc j * 2 ^ 35
    z j = omega (arith, e)

    u : (j : ℕ) → suc i + j ≡ i + suc j
    u j = omega arith

module _ (pal : Pal) (build : Build)
    (commits : (w : pal.World) (p n : ℕ) → 0 < (pal.memory_commit w p n).0) (page_size : ℕ) where
  pub arena-eq :
      (c : ThreadPageCoordinator) (offset baseline max_capacity start : ℕ) (w : pal.World)
      → c.virtual_address_base + offset ≡ start
      → start < 2 ^ 64
      → (w' : pal.World) × (initialize_arena pal build c offset baseline max_capacity w
          ≡ returns (record { arena = fresh_arena start baseline max_capacity; world = w' }))
  unfolding initialize_arena
  arena-eq c offset baseline max_capacity target w at small =
      let inside : add64 c.virtual_address_base offset ≡ target = omega arith in
      let p = pal.memory_commit w target baseline in
      let good : not (p.0 == 0) ≡ true = ground (arith, commits w target baseline) in
      (p.1, rw (inside, assert-true build (not (p.0 == 0)) good) refl)

  prepared :
      (i cursor : ℕ) (cs : Contexts) (w : pal.World)
      → cursor < 2 ^ 64
      → (cs' : Contexts) × (w' : pal.World) × (prepare pal build page_size i cursor cs w
          ≡ returns (cs', w'))
        × IsPlaced page_size cursor (generic cs' i)
        × ((j : ℕ) → j ≢ i → generic cs' j ≡ generic cs j)
  unfolding prepare page_coordinator
  prepared i cursor cs w small =
      let (w', e) =
        arena-eq (page_coordinator page_size cursor) MemoryMap.virt_zone_ta_offset
          MemoryMap.virt_zone_ta_baseline MemoryMap.virt_zone_ta_size cursor
          (pal.timer_initialize w).1 (omega arith) small in
      let g : GenericExecutionContext = record (generic cs i) {
        per_thread_timer = (pal.timer_initialize w).0;
        page_coordinator = page_coordinator page_size cursor;
        transient_arena =
            fresh_arena cursor MemoryMap.virt_zone_ta_baseline MemoryMap.virt_zone_ta_size;
      } in
      (
        set_generic cs i g,
        w',
        rw e refl,
        rw (generic-set_generic cs i g) (record { coordinator = refl; arena = refl }),
        λ j h. generic-set_generic_ne cs i j g h,
      )

  pub prepared_all :
      (n i cursor : ℕ) (cs : Contexts) (w : pal.World)
      → cursor + n * 2 ^ 35 < 2 ^ 64
      → (cs' : Contexts) × (w' : pal.World) × (prepare_all pal build n page_size i cursor cs w
          ≡ returns (cs', w'))
        × ((j : ℕ) → j < n → IsPlaced page_size (cursor + j * 2 ^ 35) (generic cs' (i + j)))
        × ((j : ℕ) → j < i → generic cs' j ≡ generic cs j)
  unfolding prepare_all
  prepared_all zero i cursor cs w small =
      (cs, w, refl, λ j h. absurd (omega (arith, h)), λ j h. refl)
  prepared_all (suc n) i cursor cs w small =
      let (cs1, w1, e1, here, others) = prepared i cursor cs w (omega arith) in
      let next = add64 cursor (2 ^ 35) in
      let at : next ≡ cursor + 2 ^ 35 = omega arith in
      let (cs2, w2, e2, later, before) =
        prepared_all n (suc i) next cs1 w1 (omega (arith, small)) in
      (
        cs2,
        w2,
        rw e1 e2,
        ahead (λ x k. IsPlaced page_size x (generic cs2 k)) n i cursor next at
            (rw (before i (omega arith)) here) later,
        λ j h. before j (omega (arith, h)) ∙ others j (omega (arith, h)),
      )
