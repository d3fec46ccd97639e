-- ===== src/Build/Ran.antt =====
-- What a call comes to where C++ may leave its behaviour undefined, or a loop may not end: the engine's
-- start (Engine/src/delta/core/engine.cpp) goes through both.
use project_delta.Prelude.{Option, none, some}
use project_delta.Build.{Outcome, returns, aborted}

-- `stopped` is at an assertion.
pub data Ran {ℓ} (A : Type ℓ) : Type ℓ where
  ran : A → Ran A
  stopped : Ran A
  undefined : Ran A
  endless : Ran A

infixl 5 ◌>>=◌
abbrev pub ◌>>=◌ {ℓ κ} : {A : Type ℓ} {B : Type κ} → Ran A → (A → Ran B) → Ran B
ran a >>= f = f a
stopped >>= f = stopped
undefined >>= f = undefined
endless >>= f = endless

abbrev pub of_outcome {ℓ} : {A : Type ℓ} → Outcome A → Ran A
of_outcome (returns a) = ran a
of_outcome aborted = stopped

abbrev pub or_undefined {ℓ} : {A : Type ℓ} → Option A → Ran A
or_undefined (some a) = ran a
or_undefined none = undefined

abbrev pub or_endless {ℓ} : {A : Type ℓ} → Option A → Ran A
or_endless (some a) = ran a
or_endless none = endless
