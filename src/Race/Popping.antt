-- ===== src/Race/Popping.antt =====
-- The steps of TaskQueue_Pop (Engine/src/delta/core/ThreadContext.cpp) beside a thief.
use mathlib.Core.Path.{subst}
use project_delta.Prelude.{
  ℕ, ◌+◌, ◌-◌, ◌≤◌, ◌<◌, ◌≡◌, ◌≢◌, ◌∙◌, refl, sym, ap, arith, ◌∷◌, true, false,
}
use project_delta.Prelude.Int.{pos, pos_part, ◌+ℤ◌, ◌-ℤ◌, ltb_ℤ, eqb_ℤ}
use project_delta.Race.{
  Shared, Owner, resting, loaded, lowered, checked, raising, Pops, load, lower, check, find_none,
  take, win, lose, raise, Other,
}
use project_delta.Race.Order.{
  IsPred, lowered-IsPred, suc-IsPred, suc-pos, occurs, within, occurs-top, occurs-bottom, lt-IsPred,
  eq-IsPred, apart-IsPred, pred-pos, eqb-pos, apart-pos,
}
use project_delta.Race.Fair.{IsChecked, IsFair, other-at}

module _ {lo hi : ℕ} where
  pub Pops-IsFair :
      {m m' : Shared} {o o' : Owner} (x : Other)
      → Pops m o m' o'
      → IsFair lo hi (record { shared = m; owner = o; other = x })
      → IsFair lo hi (record { shared = m'; owner = o'; other = x })
  Pops-IsFair {m = m} x load h = record {
    t = h.t;
    f = h.f;
    order = h.order;
    top_is = h.top_is;
    owner_at =
        (h.owner_at, subst (λ b. IsPred (b -ℤ pos 1) h.f) (sym h.owner_at) (lowered-IsPred h.f));
    other_at =
        other-at h.f h.f resting (loaded (m.bottom -ℤ pos 1)) x (omega arith) (λ n le below. below)
          h.other_at;
    counts = h.counts;
  }
  Pops-IsFair x (lower {b = b}) h = record {
    t = h.t;
    f = h.f;
    order = h.order;
    top_is = h.top_is;
    owner_at = (refl, h.owner_at.1);
    other_at =
        other-at h.f h.f (loaded b) (lowered b) x (omega arith) (λ n le below. below) h.other_at;
    counts = h.counts;
  }
  Pops-IsFair {m = m} x (check {b = b}) h = record {
    t = h.t;
    f = h.f;
    order = h.order;
    top_is = h.top_is;
    owner_at = record {
      k = h.t;
      u_is = h.top_is;
      seen = omega arith;
      ahead = λ lt. omega (arith, lt);
      bottom_is = h.owner_at.0;
      lower_is = h.owner_at.1;
    };
    other_at =
        other-at h.f h.f (lowered b) (checked m.top b) x (omega arith)
          (λ n le below e. (below e, λ lt. omega (arith, lt, e, ap pos_part h.top_is))) h.other_at;
    counts = h.counts;
  }
  Pops-IsFair x (find_none {t = u} {b = b} e) h =
      let c : IsChecked _ _ _ _ _ = h.owner_at in
      let n≤k : h.f ≤ c.k =
        lt-IsPred b c.k h.f c.lower_is (subst (λ u. ltb_ℤ b u ≡ true) c.u_is e) in
      record {
        t = h.t;
        f = h.f;
        order = h.order;
        top_is = h.top_is;
        owner_at = (c.bottom_is, c.lower_is, omega (arith, n≤k, c.seen, h.order.1));
        other_at =
            other-at h.f h.f (checked u b) (raising b) x (omega arith) (λ n le below e. (below e).0)
              h.other_at;
        counts = h.counts;
      }
  Pops-IsFair {m = m} x (take {t = u} {b = b} e e') h =
      let c : IsChecked _ _ _ _ _ = h.owner_at in
      let lt : c.k + 1 < h.f =
        apart-IsPred b c.k h.f c.lower_is (subst (λ u. ltb_ℤ b u ≡ false) c.u_is e)
          (subst (λ u. eqb_ℤ u b ≡ false) c.u_is e') in
      let is : h.f ≡ h.f - 1 + 1 = omega (arith, lt) in
      record {
        t = h.t;
        f = h.f - 1;
        order = (h.order.0, omega (arith, c.ahead lt), omega (arith, h.order.2));
        top_is = h.top_is;
        owner_at = c.bottom_is ∙ pred-pos b (h.f - 1) (subst (IsPred b) is c.lower_is);
        other_at =
            other-at h.f (h.f - 1) (checked u b) resting x (omega arith)
              (λ n le below e. omega (arith, (below e).1 (omega (arith, lt, ap pos_part c.u_is))))
              h.other_at;
        counts = λ i.
            occurs-bottom i h.f (h.f - 1) hi (within lo h.t i) b m.taken c.lower_is is h.order.2
              (h.counts i);
      }
  Pops-IsFair {m = m} x (win {t = u} {b = b} e e' e'') h =
      let c : IsChecked _ _ _ _ _ = h.owner_at in
      let is : c.k + 1 ≡ h.f =
        eq-IsPred b c.k h.f c.lower_is (subst (λ u. eqb_ℤ u b ≡ true) c.u_is e') in
      let is_top : c.k ≡ h.t = eqb-pos m.top u h.t c.k h.top_is c.u_is e'' in
      let b_is : b ≡ pos h.t =
        pred-pos b h.t (subst (IsPred b) (omega (arith, is, is_top)) c.lower_is) in
      record {
        t = h.t + 1;
        f = h.f;
        order = (omega (arith, h.order.0), omega (arith, is, is_top), h.order.2);
        top_is = ap (λ v. v +ℤ pos 1) (c.u_is ∙ ap pos is_top) ∙ suc-pos h.t;
        owner_at = (c.bottom_is, c.lower_is, omega (arith, is, is_top));
        other_at =
            other-at h.f h.f (checked u b) (raising b) x (omega arith)
              (λ n le below e. absurd (omega (arith, le, e))) h.other_at;
        counts = λ i.
            subst (λ v. occurs i (v ∷ m.taken) ≡ within lo (h.t + 1) i + within h.f hi i) (sym b_is)
              (occurs-top i lo h.t (within h.f hi i) m.taken h.order.0 (h.counts i));
      }
  Pops-IsFair {m = m} x (lose {t = u} {b = b} e e' e'') h =
      let c : IsChecked _ _ _ _ _ = h.owner_at in
      let is : c.k + 1 ≡ h.f =
        eq-IsPred b c.k h.f c.lower_is (subst (λ u. eqb_ℤ u b ≡ true) c.u_is e') in
      let passed : c.k ≢ h.t = apart-pos m.top u h.t c.k h.top_is c.u_is e'' in
      record {
        t = h.t;
        f = h.f;
        order = h.order;
        top_is = h.top_is;
        owner_at = (c.bottom_is, c.lower_is, omega (arith, is, passed, c.seen, h.order.1));
        other_at =
            other-at h.f h.f (checked u b) (raising b) x (omega arith) (λ n le below e. (below e).0)
              h.other_at;
        counts = h.counts;
      }
  Pops-IsFair x (raise {b = b}) h = record {
    t = h.t;
    f = h.f;
    order = h.order;
    top_is = h.top_is;
    owner_at = suc-IsPred b h.f h.owner_at.1;
    other_at =
        other-at h.f h.f (raising b) resting x (omega arith) (λ n le below. below) h.other_at;
    counts = h.counts;
  }
