-- ===== src/Race/Stealing.antt =====
-- The steps of TaskQueue_Steal (Engine/src/delta/core/ThreadContext.cpp) beside the owner.
use mathlib.Core.Path.{subst}
use project_delta.Prelude.{ℕ, ◌+◌, ◌<◌, ◌≡◌, ◌∙◌, sym, ap, arith, ◌∷◌, true}
use project_delta.Prelude.Int.{pos, ◌+ℤ◌, ltb_ℤ}
use project_delta.Race.{
  Shared, Owner, Other, Steals, load_top, see_none, see_some, steal_win, steal_lose,
}
use project_delta.Race.Order.{suc-pos, occurs, within, occurs-top, eqb-pos}
use project_delta.Race.Fair.{Below, IsFair, sees-Below, stolen-OwnerAt, Below-lt}

module _ {lo hi : ℕ} where
  pub Steals-IsFair :
      {m m' : Shared} {x x' : Other} (o : Owner)
      → Steals m x m' x'
      → IsFair lo hi (record { shared = m; owner = o; other = x })
      → IsFair lo hi (record { shared = m'; owner = o; other = x' })
  Steals-IsFair o load_top h = record {
    t = h.t;
    f = h.f;
    order = h.order;
    top_is = h.top_is;
    owner_at = h.owner_at;
    other_at = (h.t, h.top_is, omega arith);
    counts = h.counts;
  }
  Steals-IsFair o (see_none e) h = record {
    t = h.t;
    f = h.f;
    order = h.order;
    top_is = h.top_is;
    owner_at = h.owner_at;
    other_at = tt;
    counts = h.counts;
  }
  Steals-IsFair {m = m} o (see_some {t = u} e) h =
      let (n, u_is, n≤t) = h.other_at in
      record {
        t = h.t;
        f = h.f;
        order = h.order;
        top_is = h.top_is;
        owner_at = h.owner_at;
        other_at = (
          n,
          u_is,
          n≤t,
          λ is.
              sees-Below h.t h.f n m.bottom o h.owner_at
                (subst (λ u. ltb_ℤ u m.bottom ≡ true) u_is e),
        );
        counts = h.counts;
      }
  Steals-IsFair {m = m} o (steal_win {t = u} e) h =
      let (n, u_is, n≤t, below) = h.other_at in
      let is_top : n ≡ h.t = eqb-pos m.top u h.t n h.top_is u_is e in
      let below : Below h.t h.f o = subst (λ n. Below n h.f o) is_top (below is_top) in
      let lt : h.t < h.f = Below-lt h.t h.f o below in
      let u_is : u ≡ pos h.t = u_is ∙ ap pos is_top in
      record {
        t = h.t + 1;
        f = h.f;
        order = (omega (arith, h.order.0), omega (arith, lt), h.order.2);
        top_is = ap (λ v. v +ℤ pos 1) u_is ∙ suc-pos h.t;
        owner_at = stolen-OwnerAt h.t h.f m.bottom o below h.owner_at;
        other_at = tt;
        counts = λ i.
            subst (λ v. occurs i (v ∷ m.taken) ≡ within lo (h.t + 1) i + within h.f hi i) (sym u_is)
              (occurs-top i lo h.t (within h.f hi i) m.taken h.order.0 (h.counts i));
      }
  Steals-IsFair o (steal_lose e) h = record {
    t = h.t;
    f = h.f;
    order = h.order;
    top_is = h.top_is;
    owner_at = h.owner_at;
    other_at = tt;
    counts = h.counts;
  }
