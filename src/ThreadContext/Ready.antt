-- ===== src/ThreadContext/Ready.antt =====
-- ThreadContext_Initialize (Engine/src/delta/core/ThreadContext.cpp): it returns, and
-- gives each thread an arena and each worker a queue in a slice of its own.
use project_delta.Prelude.{
  ℕ, zero, suc, ◌+◌, ◌-◌, ◌*◌, ◌^◌, ◌≤◌, ◌<◌, ◌≡◌, ◌∙◌, refl, ap, arith, ◌==◌, not, true, some,
}
use project_delta.Word.{add64, mul64, sub32}
use project_delta.Word.Align.{IsRoundedUp, align-IsRoundedUp}
use project_delta.EngineTypes.Sizes.{
  thread_execution_context_size, thread_execution_context_size_lem,
}
use native.Mathlib.Nat.{pow-le-pow_right}
use project_delta.Build.{assert-true, Build, Outcome, returns, ◌>>=◌}
use project_delta.Pal.{Pal}
use project_delta.ThreadContext.Finish.{IsMainAt, IsWorkerAt, finished_main, finished_workers}
use project_delta.ThreadContext.Place.{IsPlaced, behind, prepared_all}
use project_delta.ThreadContext.{
  Contexts, Globals, generic, prepare_all, finish_main, finish_workers, thread_context_initialize,
  master_pool_size, aligned_context_array_size,
}

-- What ThreadContext_Initialize leaves for `n` workers: the slab, the main thread's slice behind the
-- array of contexts, then one slice for each worker, to the end of the slab.
pub record IsReady (page_size n start array : ℕ) (g : Globals) : Type 0 where
  pub slab_start : g.master_slab_start ≡ start
  pub slab_end : g.master_slab_end ≡ start + array + (n + 1) * 2 ^ 35
  pub thread_count : g.thread_count ≡ n + 1
  pub worker_count : g.worker_count ≡ n
  pub current : g.current ≡ some 0
  pub array_holds : (n + 1) * 384 ≤ array
  pub main_at : IsMainAt page_size (start + array) g.contexts.main_context
  pub worker_at :
      (i : ℕ)
      → 0 < i
      → i ≤ n
      → IsWorkerAt page_size (start + array + i * 2 ^ 35) i (g.contexts.worker_context i)

generic-worker : (cs : Contexts) (j : ℕ) → generic cs (1 + j) ≡ (cs.worker_context (1 + j)).generic
unfolding generic
generic-worker cs j = let e : 1 + j ≡ suc j = omega arith in rw e refl

workers_from_one :
    (P : ℕ → ℕ → Type 0) (n base : ℕ)
    → ((j : ℕ) → j < n → P (base + 2 ^ 35 + j * 2 ^ 35) (1 + j))
    → (i : ℕ) → 0 < i
    → i ≤ n
    → P (base + i * 2 ^ 35) i
workers_from_one P n base all zero lo hi = absurd (omega (arith, lo))
workers_from_one P n base all (suc j) lo hi =
    let x : base + suc j * 2 ^ 35 ≡ base + 2 ^ 35 + j * 2 ^ 35 = omega arith in
    let y : suc j ≡ 1 + j = omega arith in rw (x, y) (all j (omega (arith, hi)))

module _ (pal : Pal) (build : Build)
    (commits : (w : pal.World) (p n : ℕ) → 0 < (pal.memory_commit w p n).0) (page_size : ℕ) where
  -- The two loops and the block between them, and what follows.
  abbrev pub chain :
      ℕ
      → ℕ
      → ℕ
      → Contexts
      → pal.World
      → (Contexts × pal.World → Outcome (Globals × pal.World))
      → Outcome (Globals × pal.World)
  chain n d cursor cs w then_ = do
    r ← prepare_all pal build (n + 1) page_size 0 cursor cs w
    m ← finish_main pal build r.0 r.1
    f ← finish_workers pal build (n + 1 - 1) d 1 m.0 m.1
    then_ f

  all_placed :
      (n d cursor base : ℕ) (cs : Contexts) (w : pal.World)
      (then_ : Contexts × pal.World → Outcome (Globals × pal.World))
      → cursor ≡ base
      → base + (n + 1) * 2 ^ 35 < 2 ^ 64
      → (cs' : Contexts) × (w' : pal.World) × (chain n d cursor cs w then_ ≡ then_ (cs', w'))
        × IsMainAt page_size base cs'.main_context
        × ((i : ℕ)
            → 0 < i
            → i ≤ n
            → IsWorkerAt page_size (base + i * 2 ^ 35) i (cs'.worker_context i))
  all_placed n d cursor base cs w then_ at fits =
      let (cs1, w1, e1, placed, _) =
        prepared_all pal build commits page_size (n + 1) 0 base cs w fits in
      let (p0, ps) =
        behind (λ x i. IsPlaced page_size x (generic cs1 i)) n 0 base (base + 2 ^ 35) refl
          (λ j h. placed j (omega (arith, h))) in
      let (cs2, w2, e2, is_main, same) =
        finished_main pal build commits page_size base cs1 w1 p0 (omega (arith, fits)) in
      let ps2 : (j : ℕ)
          → j < n
          → IsPlaced page_size (base + 2 ^ 35 + j * 2 ^ 35) (cs2.worker_context (1 + j)).generic =
        λ j h. rw (same, ← generic-worker cs1 j) (ps j h) in
      let (cs3, w3, e3, are, _, m) =
        finished_workers pal build commits page_size n d 1 (base + 2 ^ 35) cs2 w2 ps2
          (omega (arith, fits)) in
      let pred : n + 1 - 1 ≡ n = omega arith in
      (
        cs3,
        w3,
        ap (λ x. chain n d x cs w then_) at ∙ rw e1 (rw e2 (rw (pred, e3) refl)),
        rw m is_main,
        workers_from_one (λ x i. IsWorkerAt page_size x i (cs3.worker_context i)) n base are,
      )

pub aligned_context_array_size-IsRoundedUp :
    (k n : ℕ)
    → k ≤ 32
    → n + 1 < 2 ^ 28
    → IsRoundedUp ((n + 1) * 384) (2 ^ k) (aligned_context_array_size (n + 1) (2 ^ k))
unfolding aligned_context_array_size
aligned_context_array_size-IsRoundedUp k n hk hn =
    let size : mul64 thread_execution_context_size (n + 1) ≡ (n + 1) * 384 =
      rw thread_execution_context_size_lem.0 (omega (arith, hn)) in
    let page : 2 ^ k ≤ 2 ^ 32 = pow-le-pow_right {n = 2} (omega arith) {i = k} {j = 32} hk in
    rw size (align-IsRoundedUp ((n + 1) * 384) k (omega (arith, hk)) (omega (arith, hn, page)))

module _ (pal : Pal) (build : Build)
    (commits : (w : pal.World) (p n : ℕ) → 0 < (pal.memory_commit w p n).0) (k n : ℕ)
    (w : pal.World) where
  abbrev pub page_size : ℕ
  page_size = 2 ^ k

  abbrev pub start : ℕ
  start = (pal.memory_reserve w (master_pool_size (n + 1) page_size)).0

  abbrev pub array : ℕ
  array = aligned_context_array_size (n + 1) page_size

  pub array_lem :
      k ≤ 32
      → n + 1 < 2 ^ 28
      → ((n + 1) * 384 ≤ array) × (master_pool_size (n + 1) page_size ≡ array + (n + 1) * 2 ^ 35)
  unfolding master_pool_size
  array_lem hk hn =
      let page : 2 ^ k ≤ 2 ^ 32 = pow-le-pow_right {n = 2} (omega arith) {i = k} {j = 32} hk in
      let r = aligned_context_array_size-IsRoundedUp k n hk hn in
      (omega (arith, r.above), omega (arith, r.least, hn, page))

  -- With `n` workers, pages of `2 ^ k` bytes and a reservation that does not wrap, where every commit
  -- succeeds ThreadContext_Initialize returns in every build, whether memory can be locked or not. The
  -- slab then holds the array of contexts, the main thread's slice and one slice for each worker, and
  -- nothing else; the array lies where the commit says; each context has its transient arena at the start
  -- of its slice, the main one its persistent storage behind it, each worker an empty queue behind it.
  pub thread_context_initialize-IsReady :
      k ≤ 32
      → n + 1 < 2 ^ 28
      → 0 < start
      → start + master_pool_size (n + 1) page_size < 2 ^ 64
      → (count_offset : ℕ) (memory : Contexts)
      → (g : Globals) × (w' : pal.World) × (thread_context_initialize pal build
            (n + 1)
            page_size
            count_offset
            memory
            w
          ≡ returns (g, w'))
        × IsReady page_size n start array g
        × (g.thread_contexts
            ≡ (pal.memory_commit
                (pal.memory_reserve w (master_pool_size (n + 1) page_size)).1
                start
                array).0)
  unfolding thread_context_initialize
  thread_context_initialize-IsReady hk hn positive small count_offset memory =
      let (holds, pool) = array_lem hk hn in
      let cursor = add64 start array in
      let at : cursor ≡ start + array = omega (arith, small, pool) in
      let fits : cursor + (n + 1) * 2 ^ 35 < 2 ^ 64 = omega (arith, small, pool, at) in
      let reserved = pal.memory_reserve w (master_pool_size (n + 1) page_size) in
      let committed = pal.memory_commit reserved.1 start array in
      let locked = pal.memory_lock committed.1 start array in
      let good1 : not (start == 0) ≡ true = ground (arith, positive) in
      let good2 : not (committed.0 == 0) ≡ true = ground (arith, commits reserved.1 start array) in
      let d = add64 committed.0 count_offset in
      let globals : Contexts → Globals = λ cs. record {
        master_slab_start = start;
        master_slab_end = add64 start (master_pool_size (n + 1) page_size);
        thread_count = n + 1;
        worker_count = sub32 (n + 1) 1;
        thread_contexts = committed.0;
        current = some 0;
        contexts = cs;
      } in
      let (cs, w', e, is_main, are) =
        all_placed pal build commits page_size n d cursor (start + array) memory locked.1
          (λ f. returns (globals f.0, f.1)) at (omega (arith, fits, at)) in
      (
        globals cs,
        w',
        rw (assert-true build (not (start == 0)) good1)
            (rw (assert-true build (not (committed.0 == 0)) good2) e),
        record {
          slab_start = refl;
          slab_end = omega (arith, small, pool);
          thread_count = refl;
          worker_count = omega (arith, hn);
          current = refl;
          array_holds = holds;
          main_at = is_main;
          worker_at = are;
        },
        refl,
      )
