-- ===== src/Scheduler/All.antt =====
-- The jobs of all workers, as one list, and the queues of all workers together.
use mathlib.Core.List.{Perm, perm_middle}
use mathlib.Core.List.Perm
use project_delta.Prelude.{
  ℕ, zero, suc, ◌+◌, ◌≤◌, ◌<◌, ◌≡◌, ◌≢◌, ◌∙◌, sym, ap, refl, arith, List, [], ◌∷◌, ◌++◌, length,
  ℕ_discrete,
}
use project_delta.EngineTypes.{Job}

-- The lists of the workers from 1 to `w`, one after the other.
unfoldable pub all : ℕ → (ℕ → List Job) → List Job
all zero f = []
all (suc w) f = all w f ++ f (suc w)

pub all_ext :
    (w : ℕ) (f g : ℕ → List Job) → ((i : ℕ) → 0 < i → i ≤ w → f i ≡ g i) → all w f ≡ all w g
unfolding all
all_ext zero f g same = refl
all_ext (suc w) f g same =
    ap (λ l. l ++ f (suc w)) (all_ext w f g (λ i lo hi. same i lo (omega arith)))
    ∙ ap (λ l. all w g ++ l) (same (suc w) (omega arith) (omega arith))

-- One job more in one list is one job more in all.
pub all-Perm :
    (w i : ℕ) (x : Job) (f g : ℕ → List Job)
    → 0 < i
    → i ≤ w
    → Perm (g i) (x ∷ f i)
    → ((j : ℕ) → j ≢ i → g j ≡ f j)
    → Perm (all w g) (x ∷ all w f)
unfolding all
all-Perm zero i x f g lo hi p same = absurd (omega (arith, lo, hi))
all-Perm (suc w) i x f g lo hi p same = elim (ℕ_discrete i (suc w)) [
  | yes e ↦
      let others = all_ext w g f (λ j _ le. same j (omega (arith, e))) in
      let here : Perm (g (suc w)) (x ∷ f (suc w)) = rw (← e) p in
      rw others (Perm.trans (Perm.append_left (all w f) here) (perm_middle (all w f) (f (suc w))))
  | no n ↦
      rw (same (suc w) (λ e. n (sym e)))
        (Perm.append_right (f (suc w)) (all-Perm w i x f g lo (omega (arith, n)) p same))
]

-- How many jobs there are.
unfoldable pub total : ℕ → (ℕ → List Job) → ℕ
total zero f = 0
total (suc w) f = total w f + length (f (suc w))

total_ext :
    (w : ℕ) (f g : ℕ → List Job) → ((i : ℕ) → 0 < i → i ≤ w → f i ≡ g i) → total w f ≡ total w g
unfolding total
total_ext zero f g same = refl
total_ext (suc w) f g same =
    let here = ap length (same (suc w) (omega arith) (omega arith)) in
    omega (arith, here, total_ext w f g (λ i lo hi. same i lo (omega (arith, hi))))

pub total-suc :
    (w i : ℕ) (f g : ℕ → List Job)
    → 0 < i
    → i ≤ w
    → length (g i) ≡ suc (length (f i))
    → ((j : ℕ) → j ≢ i → g j ≡ f j)
    → total w g ≡ suc (total w f)
unfolding total
total-suc zero i f g lo hi e same = absurd (omega (arith, lo, hi))
total-suc (suc w) i f g lo hi e same = elim (ℕ_discrete i (suc w)) [
  | yes z ↦
      let others = total_ext w g f (λ j _ le. same j (omega (arith, z, le))) in
      let here : length (g (suc w)) ≡ suc (length (f (suc w))) = rw (← z) e in
      omega (arith, others, here)
  | no n ↦
      let others = total-suc w i f g lo (omega (arith, n, hi)) e same in
      omega (arith, others, ap length (same (suc w) (λ z. n (sym z))))
]

pub all-eq-nil : (w : ℕ) (f : ℕ → List Job) → ((i : ℕ) → 0 < i → i ≤ w → f i ≡ []) → all w f ≡ []
unfolding all
all-eq-nil zero f none = refl
all-eq-nil (suc w) f none =
    rw
      (
        all-eq-nil w f (λ i lo hi. none i lo (omega arith)),
        none (suc w) (omega arith) (omega arith),
      )
      refl

pub total-eq-zero :
    (w : ℕ) (f : ℕ → List Job) → ((i : ℕ) → 0 < i → i ≤ w → f i ≡ []) → total w f ≡ 0
unfolding total
total-eq-zero zero f none = refl
total-eq-zero (suc w) f none =
    let here = ap length (none (suc w) (omega arith) (omega arith)) in
    omega (arith, here, total-eq-zero w f (λ i lo hi. none i lo (omega (arith, hi))))
