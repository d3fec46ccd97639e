-- ===== src/Build.antt =====
-- `assert` of <cassert>: a debug build stops at a failed assertion, a build with NDEBUG (CMake's
-- Release) goes on as if the assertion were not there.
pub mod Ran
use project_delta.Prelude.{Bool, true, false, ◌≡◌, refl}

pub data Build : Type 0 where
  debug release : Build

-- What a call comes to: it returns, or the process stops, at an assertion or in a call through null.
pub data Outcome {ℓ} (A : Type ℓ) : Type ℓ where
  returns : A → Outcome A
  aborted : Outcome A

infixl 5 ◌>>=◌ ◌>>◌
abbrev pub ◌>>=◌ {ℓ κ} : {A : Type ℓ} {B : Type κ} → Outcome A → (A → Outcome B) → Outcome B
returns a >>= f = f a
aborted >>= f = aborted

abbrev pub ◌>>◌ {ℓ} : {B : Type ℓ} → Outcome (Unit {0}) → Outcome B → Outcome B
m >> k = m >>= λ _. k

abbrev pub assert : Build → Bool → Outcome (Unit {0})
assert debug false = aborted
assert debug true = returns tt
assert release b = returns tt

pub assert_release : (b : Bool) → assert release b ≡ returns tt
assert_release b = refl

-- An assertion that holds.
pub assert-true : (build : Build) (b : Bool) → b ≡ true → assert build b ≡ returns tt
assert-true debug b e = rw e refl
assert-true release b e = refl

-- Inversion of a chain that returns.
pub >>=-eq-returns {ℓ κ} :
    {A : Type ℓ} {B : Type κ} (m : Outcome A) (f : A → Outcome B) {b : B}
    → (m >>= f) ≡ returns b
    → (a : A) × (m ≡ returns a) × (f a ≡ returns b)
>>=-eq-returns (returns a) f h = (a, refl, h)
>>=-eq-returns aborted f h = cc

pub returns-injective {ℓ} : {A : Type ℓ} {a b : A} → returns a ≡ returns b → a ≡ b
returns-injective h = cc
