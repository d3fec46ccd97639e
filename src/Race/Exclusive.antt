-- ===== src/Race/Exclusive.antt =====
-- TaskQueue_Pop against TaskQueue_Steal (Engine/src/delta/core/ThreadContext.cpp): each job is handed out
-- once.
use mathlib.Core.Path.{subst}
use project_delta.Prelude.{ℕ, ◌+◌, ◌≤◌, ◌≡◌, ◌∙◌, refl, sym, ap, arith}
use project_delta.Prelude.Int.{pos}
use project_delta.Race.{resting, System, Syncs, Reach}
use project_delta.Race.Order.{occurs, within, nothing-within, outside-within, all-within}
use project_delta.Race.Fair.{OwnerAt, IsFair}
use project_delta.Race.{starting, pop, steal, here, next}
use project_delta.Race.Popping.{Pops-IsFair}
use project_delta.Race.Stealing.{Steals-IsFair}

starting-IsFair : (lo hi : ℕ) → lo ≤ hi → IsFair lo hi (starting lo hi)
unfolding occurs
starting-IsFair lo hi le = record {
  t = lo;
  f = hi;
  order = (omega arith, le, omega arith);
  top_is = refl;
  owner_at = refl;
  other_at = tt;
  counts = λ i. nothing-within lo hi i;
}

Reach-IsFair : (lo hi : ℕ) (s : System) → lo ≤ hi → Reach Syncs (starting lo hi) s → IsFair lo hi s
Reach-IsFair lo hi s le here = starting-IsFair lo hi le
Reach-IsFair lo hi s le (next {t = before} r (pop {m = m} {o = o} p)) =
    Pops-IsFair before.other p (Reach-IsFair lo hi before le r)
Reach-IsFair lo hi s le (next {t = before} r (steal {m = m} {o = o} p)) =
    Steals-IsFair before.owner p (Reach-IsFair lo hi before le r)

-- Scheduler_Sync's steals against a worker's pops, from a queue with the jobs from `lo` up to `hi`: in
-- every state they reach, in whatever order their accesses come, each of those jobs has been handed out
-- at most once and no other has.
pub handed_out_once :
    (lo hi : ℕ) (s : System)
    → lo ≤ hi
    → Reach Syncs (starting lo hi) s
    → (i : ℕ) → occurs i s.shared.taken ≤ within lo hi i
handed_out_once lo hi s le r i =
    let h : IsFair lo hi s = Reach-IsFair lo hi s le r in
    subst (λ n. n ≤ within lo hi i) (sym (h.counts i)) (outside-within lo h.t h.f hi i h.order)

-- In the same runs, whenever the worker is not inside TaskQueue_Pop, the jobs handed out and those left
-- between `top` and `bottom` are together the jobs from `lo` up to `hi`, each once.
pub none_passed_over :
    (lo hi : ℕ) (s : System)
    → lo ≤ hi
    → Reach Syncs (starting lo hi) s
    → s.owner ≡ resting
    → (t : ℕ) × (f : ℕ) × (s.shared.top ≡ pos t)
      × (s.shared.bottom ≡ pos f)
      × (t ≤ f)
      × ((i : ℕ) → occurs i s.shared.taken + within t f i ≡ within lo hi i)
none_passed_over lo hi s le r rests =
    let h : IsFair lo hi s = Reach-IsFair lo hi s le r in
    (
      h.t,
      h.f,
      h.top_is,
      subst (OwnerAt h.t h.f s.shared.bottom) rests h.owner_at,
      h.order.1,
      λ i. ap (λ n. n + within h.t h.f i) (h.counts i) ∙ all-within lo h.t h.f hi i h.order,
    )
