-- ===== src/Race/Order.antt =====
-- Indices of the task queue (Engine/src/delta/core/ThreadContext.cpp) one below another, and how often an
-- index is in a list of those taken.
use mathlib.Core.Path.{subst₂}
use project_delta.Prelude.{
  ℕ, ◌+◌, ◌≤◌, ◌<◌, ◌≡◌, ◌≢◌, ap, arith, ltb, leb, ◌&&◌, if◌then◌else◌, List, [], ◌∷◌, true, false,
}
use project_delta.Prelude.Int.{ℤ, pos, negsuc, pos_part, neg_part, ◌+ℤ◌, ◌-ℤ◌, ltb_ℤ, eqb_ℤ}

-- `b` is `f - 1`, which may be -1.
abbrev pub IsPred : ℤ → ℕ → Type 0
IsPred b f = pos_part b + 1 ≡ f + neg_part b

pub lowered-IsPred : (f : ℕ) → IsPred (pos f -ℤ pos 1) f
unfolding ◌-ℤ◌
lowered-IsPred f = ground arith

pub suc-IsPred : (b : ℤ) (f : ℕ) → IsPred b f → b +ℤ pos 1 ≡ pos f
unfolding ◌+ℤ◌
suc-IsPred (pos n) f h = ground arith
suc-IsPred (negsuc n) f h = ground arith

pub suc-pos : (t : ℕ) → pos t +ℤ pos 1 ≡ pos (t + 1)
unfolding ◌+ℤ◌
suc-pos t = ground arith

-- How often `i` is in the list.
unfoldable pub occurs : ℕ → List ℤ → ℕ
occurs i [] = 0
occurs i (x ∷ xs) = (if eqb_ℤ (pos i) x then 1 else 0) + occurs i xs

-- 1 for the indices from `a` up to `c`, 0 for the others.
abbrev pub within : ℕ → ℕ → ℕ → ℕ
within a c i = if leb a i && ltb i c then 1 else 0

-- The lower end moves over an index that is taken.
pub occurs-top :
    (i lo t n : ℕ) (xs : List ℤ)
    → lo ≤ t
    → occurs i xs ≡ within lo t i + n
    → occurs i (pos t ∷ xs) ≡ within lo (t + 1) i + n
unfolding occurs
occurs-top i lo t n xs le e = ground arith

-- So does the upper end.
pub occurs-bottom :
    (i f f' hi n : ℕ) (b : ℤ) (xs : List ℤ)
    → IsPred b f
    → f ≡ f' + 1
    → f ≤ hi
    → occurs i xs ≡ n + within f hi i
    → occurs i (b ∷ xs) ≡ n + within f' hi i
unfolding occurs
occurs-bottom i f f' hi n (pos m) xs p e le h = ground arith
occurs-bottom i f f' hi n (negsuc m) xs p e le h = absurd (omega (arith, p, e))

-- The tests of the code against a lowered bottom.
pub lt-IsPred : (b : ℤ) (k f : ℕ) → IsPred b f → ltb_ℤ b (pos k) ≡ true → f ≤ k
lt-IsPred (pos n) k f p h = ground arith
lt-IsPred (negsuc n) k f p h = ground arith

pub above-IsPred : (b : ℤ) (k f : ℕ) → IsPred b f → ltb_ℤ (pos k) b ≡ true → k + 1 < f
above-IsPred (pos n) k f p h = ground arith
above-IsPred (negsuc n) k f p h = ground arith

pub eq-IsPred : (b : ℤ) (k f : ℕ) → IsPred b f → eqb_ℤ (pos k) b ≡ true → k + 1 ≡ f
eq-IsPred (pos n) k f p h = ground arith
eq-IsPred (negsuc n) k f p h = ground arith

pub apart-IsPred :
    (b : ℤ) (k f : ℕ) → IsPred b f → ltb_ℤ b (pos k) ≡ false → eqb_ℤ (pos k) b ≡ false → k + 1 < f
apart-IsPred (pos n) k f p h h' = ground arith
apart-IsPred (negsuc n) k f p h h' = ground arith

pub pred-pos : (b : ℤ) (n : ℕ) → IsPred b (n + 1) → b ≡ pos n
pred-pos (pos m) n p = ap pos (omega (arith, p))
pred-pos (negsuc m) n p = absurd (omega (arith, p))

-- What the compare-exchange asks.
pub eqb-pos : (a b : ℤ) (t k : ℕ) → a ≡ pos t → b ≡ pos k → eqb_ℤ a b ≡ true → k ≡ t
eqb-pos a b t k p q e =
    let e' : eqb_ℤ (pos t) (pos k) ≡ true = subst₂ (λ a b. eqb_ℤ a b ≡ true) p q e in ground arith

pub apart-pos : (a b : ℤ) (t k : ℕ) → a ≡ pos t → b ≡ pos k → eqb_ℤ a b ≡ false → k ≢ t
apart-pos a b t k p q e =
    let e' : eqb_ℤ (pos t) (pos k) ≡ false = subst₂ (λ a b. eqb_ℤ a b ≡ false) p q e in ground arith

-- The indices taken from the two ends, and those left.
pub nothing-within : (lo hi i : ℕ) → 0 ≡ within lo lo i + within hi hi i
nothing-within lo hi i = ground arith

pub outside-within :
    (lo t f hi i : ℕ)
    → (lo ≤ t) × (t ≤ f) × (f ≤ hi)
    → within lo t i + within f hi i ≤ within lo hi i
outside-within lo t f hi i h = ground arith

pub all-within :
    (lo t f hi i : ℕ)
    → (lo ≤ t) × (t ≤ f) × (f ≤ hi)
    → within lo t i + within f hi i + within t f i ≡ within lo hi i
all-within lo t f hi i h = ground arith
