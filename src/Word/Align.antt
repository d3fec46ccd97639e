-- ===== src/Word/Align.antt =====
-- What ALIGN computes: the least multiple of a power of two from a size on.
use Prim.Native.Nat.{bit_and}
use mathlib.Core.Path.{ap₂}
use native.Mathlib.Nat.{one-le-pow, pow-le-pow_right, div-add-mod', mul-mod_left}
use project_delta.Prelude.{ℕ, ◌+◌, ◌-◌, ◌*◌, ◌/◌, ◌%◌, ◌^◌, ◌≤◌, ◌<◌, ◌≡◌, ◌∙◌, arith}
use project_delta.Word.{add64, sub64, not64, align}
use project_delta.Word.Bits.{bit_and_high}

pow-le : (k : ℕ) → k ≤ 64 → 2 ^ k ≤ 2 ^ 64
pow-le k h = pow-le-pow_right {n = 2} (omega arith) {i = k} {j = 64} h

-- As arithmetic, with no bit operation left.
pub align_value :
    (size k : ℕ)
    → k < 64
    → size + 2 ^ k ≤ 2 ^ 64
    → align size (2 ^ k) ≡ (size + (2 ^ k - 1)) / 2 ^ k * 2 ^ k
unfolding align
align_value size k small fits =
    ap₂ bit_and sum mask ∙ bit_and_high k 64 (x / 2 ^ k) (x % 2 ^ k) low bound (omega arith)
  where
    x : ℕ
    x = size + (2 ^ k - 1)

    pos : 1 ≤ 2 ^ k
    pos = one-le-pow k 2 (omega arith)

    low : x % 2 ^ k < 2 ^ k
    low = omega (arith, pos)

    bound : x / 2 ^ k * 2 ^ k + x % 2 ^ k < 2 ^ 64
    bound = omega (arith, pos, div-add-mod' x (2 ^ k))

    sum : add64 size (sub64 (2 ^ k) 1) ≡ x / 2 ^ k * 2 ^ k + x % 2 ^ k
    sum = omega (arith, pos, div-add-mod' x (2 ^ k))

    mask : not64 (sub64 (2 ^ k) 1) ≡ 2 ^ 64 - 2 ^ k
    mask = omega (arith, pos, pow-le k (omega arith))

-- Two multiples of a number that are less than it apart are one.
multiples_near : (unit p q : ℕ) → p % unit ≡ 0 → q % unit ≡ 0 → p < q → q < p + unit → ⊥
multiples_near unit p q hp hq lt near = grind arith

-- The least multiple of `2 ^ k` that is not below `size`.
pub record IsRoundedUp (size unit r : ℕ) : Type 0 where
  pub multiple : r % unit ≡ 0
  pub above : size ≤ r
  pub least : r < size + unit

pub IsRoundedUp-unique :
    {size unit p q : ℕ} → IsRoundedUp size unit p → IsRoundedUp size unit q → p ≡ q
IsRoundedUp-unique {size} {unit} {p} {q} h i = grind (
  arith,
  h.above,
  h.least,
  i.above,
  i.least,
  multiples_near unit p q h.multiple i.multiple,
  multiples_near unit q p i.multiple h.multiple,
)

pub align-IsRoundedUp :
    (size k : ℕ) → k < 64 → size + 2 ^ k ≤ 2 ^ 64 → IsRoundedUp size (2 ^ k) (align size (2 ^ k))
align-IsRoundedUp size k small fits =
    let e = align_value size k small fits in
    let x : ℕ = size + (2 ^ k - 1) in
    let split = div-add-mod' x (2 ^ k) in
    record {
      multiple = rw e (mul-mod_left (x / 2 ^ k) (2 ^ k));
      above = omega (arith, e, split, one-le-pow k 2);
      least = omega (arith, e, split, one-le-pow k 2);
    }
