-- ===== src/Race/Fair.antt =====
-- Where TaskQueue_Pop and TaskQueue_Steal (Engine/src/delta/core/ThreadContext.cpp) stand, against how
-- far `top` has come and how far the jobs are taken from the bottom.
use mathlib.Core.Path.{subst}
use project_delta.Prelude.{ℕ, ◌+◌, ◌≤◌, ◌<◌, ◌≡◌, ap, arith, true}
use project_delta.Prelude.Int.{ℤ, pos, pos_part, ltb_ℤ}
use project_delta.Race.{
  Owner, resting, loaded, lowered, checked, raising, Other, idle, got_top, stealing, got_bottom,
  pushing, System,
}
use project_delta.Race.Order.{IsPred, occurs, within, above-IsPred}

-- The owner has read `u` from `top`: if it then takes its job without asking, no thief may come to it.
pub record IsChecked (t f : ℕ) (bottom u b : ℤ) : Type 0 where
  pub k : ℕ
  pub u_is : u ≡ pos k
  pub seen : k ≤ t
  pub ahead : k + 1 < f → t < f
  pub bottom_is : bottom ≡ b
  pub lower_is : IsPred b f

-- What the owner's place says of the shared variables. `top` is at `t`, and the indices from `f` on
-- have been taken from the bottom.
abbrev pub OwnerAt : ℕ → ℕ → ℤ → Owner → Type 0
OwnerAt t f bottom resting = bottom ≡ pos f
OwnerAt t f bottom (loaded b) = (bottom ≡ pos f) × IsPred b f
OwnerAt t f bottom (lowered b) = (bottom ≡ b) × IsPred b f
OwnerAt t f bottom (checked u b) = IsChecked t f bottom u b
OwnerAt t f bottom (raising b) = (bottom ≡ b) × IsPred b f × (t ≡ f)

-- A thief that may still win may not win what the owner is about to take.
abbrev pub Below : ℕ → ℕ → Owner → Type 0
Below n f resting = n < f
Below n f (loaded b) = n < f
Below n f (lowered b) = n < f
Below n f (checked u b) = (n < f) × (pos_part u + 1 < f → n + 1 < f)
Below n f (raising b) = n < f

abbrev pub OtherAt : ℕ → ℕ → Owner → Other → Type 0
OtherAt t f o idle = Unit {0}
OtherAt t f o (got_top u) = (n : ℕ) × (u ≡ pos n) × (n ≤ t)
OtherAt t f o (stealing u) = (n : ℕ) × (u ≡ pos n) × (n ≤ t) × (n ≡ t → Below n f o)
OtherAt t f o (got_bottom b) = ⊥
OtherAt t f o (pushing b) = ⊥

-- The jobs from `lo` up to `hi` were there at first.
pub record IsFair (lo hi : ℕ) (s : System) : Type 0 where
  pub t : ℕ
  pub f : ℕ
  pub order : (lo ≤ t) × (t ≤ f) × (f ≤ hi)
  pub top_is : s.shared.top ≡ pos t
  pub owner_at : OwnerAt t f s.shared.bottom s.owner
  pub other_at : OtherAt t f s.owner s.other
  pub counts : (i : ℕ) → occurs i s.shared.taken ≡ within lo t i + within f hi i

-- A step that takes no chance from a thief.
pub other-at :
    {t t' : ℕ} (f f' : ℕ) (o o' : Owner) (x : Other)
    → t ≤ t'
    → ((n : ℕ) → n ≤ t → (n ≡ t → Below n f o) → n ≡ t' → Below n f' o')
    → OtherAt t f o x
    → OtherAt t' f' o' x
other-at f f' o o' idle le h a = tt
other-at f f' o o' (got_top u) le h (n, e, n≤t) = (n, e, omega (arith, le, n≤t))
other-at f f' o o' (stealing u) le h (n, e, n≤t, below) =
    (n, e, omega (arith, le, n≤t), h n n≤t below)
other-at f f' o o' (got_bottom b) le h a = elim a [ ]
other-at f f' o o' (pushing b) le h a = elim a [ ]

-- A thief that sees a job below `bottom` may try for it.
pub sees-Below :
    (t f n : ℕ) (b : ℤ) (o : Owner) → OwnerAt t f b o → ltb_ℤ (pos n) b ≡ true → Below n f o
sees-Below t f n b resting a lt =
    let lt' : ltb_ℤ (pos n) (pos f) ≡ true = subst (λ b. ltb_ℤ (pos n) b ≡ true) a lt in
    ground arith
sees-Below t f n b (loaded b') a lt =
    let lt' : ltb_ℤ (pos n) (pos f) ≡ true = subst (λ b. ltb_ℤ (pos n) b ≡ true) a.0 lt in
    ground arith
sees-Below t f n b (lowered b') a lt =
    let lt' : n + 1 < f = above-IsPred b' n f a.1 (subst (λ b. ltb_ℤ (pos n) b ≡ true) a.0 lt) in
    omega (arith, lt')
sees-Below t f n b (checked u b') a lt =
    let lt' : n + 1 < f =
      above-IsPred b' n f a.lower_is (subst (λ b. ltb_ℤ (pos n) b ≡ true) a.bottom_is lt) in
    (omega (arith, lt'), λ le. lt')
sees-Below t f n b (raising b') a lt =
    let lt' : n + 1 < f = above-IsPred b' n f a.1 (subst (λ b. ltb_ℤ (pos n) b ≡ true) a.0 lt) in
    omega (arith, lt')

-- A thief that has its job leaves the owner where it is.
pub stolen-OwnerAt :
    (t f : ℕ) (b : ℤ) (o : Owner) → Below t f o → OwnerAt t f b o → OwnerAt (t + 1) f b o
stolen-OwnerAt t f b resting lt a = a
stolen-OwnerAt t f b (loaded b') lt a = a
stolen-OwnerAt t f b (lowered b') lt a = a
stolen-OwnerAt t f b (checked u b') lt a = record {
  k = a.k;
  u_is = a.u_is;
  seen = omega (arith, a.seen);
  ahead = λ le. lt.1 (omega (arith, le, ap pos_part a.u_is));
  bottom_is = a.bottom_is;
  lower_is = a.lower_is;
}
stolen-OwnerAt t f b (raising b') lt a = absurd (omega (arith, lt, a.2))

pub Below-lt : (n f : ℕ) (o : Owner) → Below n f o → n < f
Below-lt n f resting lt = lt
Below-lt n f (loaded b) lt = lt
Below-lt n f (lowered b) lt = lt
Below-lt n f (checked u b) lt = lt.0
Below-lt n f (raising b) lt = lt
