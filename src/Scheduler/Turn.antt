-- ===== src/Scheduler/Turn.antt =====
-- The order in which Scheduler_Sync (Engine/src/delta/core/ThreadContext.cpp) visits the workers.
use native.Mathlib.Nat.{mod-eq_of_lt}
use project_delta.Prelude.{
  ap, ℕ, ◌+◌, ◌-◌, ◌%◌, ◌≤◌, ◌<◌, ◌≡◌, ◌≢◌, arith, leb, if◌then◌else◌, dec_lt,
}

-- How many turns from worker `ix` on it takes to come to worker `i`.
abbrev pub distance : ℕ → ℕ → ℕ → ℕ
distance w ix i = if leb ix i then i - ix else i + w - ix

-- `1 + ix % w`
pub turn-inside : (w ix : ℕ) → ix < w → 1 + ix % w ≡ ix + 1
turn-inside w ix h = omega (arith, mod-eq_of_lt {n = ix} {m = w} h)

pub turn-last : (w : ℕ) → 0 < w → 1 + w % w ≡ 1
turn-last w h = grind arith

pub turn-range : (w ix : ℕ) → 0 < w → (0 < 1 + ix % w) × (1 + ix % w ≤ w)
turn-range w ix h = omega arith

pub distance-lt : (w ix i : ℕ) → 0 < ix → ix ≤ w → 0 < i → i ≤ w → distance w ix i < w
distance-lt w ix i ix_lo ix_hi lo hi = ground arith

-- The next turn is one closer to every other worker.
pub distance-turn :
    (w ix i : ℕ)
    → 0 < ix
    → ix ≤ w
    → 0 < i
    → i ≤ w
    → i ≢ ix
    → distance w (1 + ix % w) i + 1 ≡ distance w ix i
distance-turn w ix i ix_lo ix_hi lo hi n = elim (dec_lt ix w) [
  | yes h ↦ rw (turn-inside w ix h) (ground (arith, n))
  | no h ↦
      let last_one : ix ≡ w = omega (arith, h, ix_hi) in
      let e : 1 + ix % w ≡ 1 =
        omega (arith, turn-last w (omega (arith, ix_lo, ix_hi)), ap (λ x. 1 + x % w) last_one) in
      rw e (ground (arith, n))
]
