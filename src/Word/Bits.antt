-- ===== src/Word/Bits.antt =====
-- `&` with a mask of high bits, as arithmetic, at every width.
use Prim.Native.Nat.{min, bit_and, digits, bit_and-bitwise}
use native.Mathlib.Nat.{
  pow-suc, one-le-pow, pow-le-pow_right, div-add-mod, mod-eq_of_lt, add-mul-mod_self_left,
}
use project_delta.Prelude.{
  ℕ, zero, suc, ◌+◌, ◌-◌, ◌*◌, ◌/◌, ◌%◌, ◌^◌, ◌≤◌, ◌<◌, ◌≡◌, refl, sym, ◌∙◌, ap, arith,
}

-- The recursion that `bit_and` stands for: `rounds` bounds the digits of the first number.
abbrev conjoin : ℕ → ℕ → ℕ → ℕ
conjoin rounds x y = digits (λ _. 0) min rounds x y

-- One more round changes nothing once there are enough,
conjoin-suc : (rounds x y : ℕ) → x ≤ rounds → conjoin (suc rounds) x y ≡ conjoin rounds x y
conjoin-suc rounds zero y enough = elim rounds as (λ r. conjoin (suc r) 0 y ≡ conjoin r 0 y) [
  | zero ↦ refl
  | suc r ↦ refl
]
conjoin-suc zero (suc x) y enough = elim enough [ ]
conjoin-suc (suc rounds) (suc x) y enough =
    ap (λ high. high * 2 + min (suc x % 2) (y % 2))
      (conjoin-suc rounds (suc x / 2) (y / 2) (omega arith))

-- nor do many.
conjoin-add : (more rounds x y : ℕ) → x ≤ rounds → conjoin (more + rounds) x y ≡ conjoin rounds x y
conjoin-add zero rounds x y enough = ap (λ r. conjoin r x y) (omega arith)
conjoin-add (suc more) rounds x y enough =
    let shift : suc more + rounds ≡ suc (more + rounds) = omega arith in
    ap (λ r. conjoin r x y) shift
    ∙ conjoin-suc (more + rounds) x y (omega arith)
    ∙ conjoin-add more rounds x y enough

-- One equation for the lowest binary digit.
bit_and-digit : (x y : ℕ) → bit_and x y ≡ bit_and (x / 2) (y / 2) * 2 + min (x % 2) (y % 2)
bit_and-digit zero y = omega (arith, bit_and-bitwise 0 y, bit_and-bitwise 0 (y / 2))
bit_and-digit (suc x) y =
    let half : ℕ = suc x / 2 in
    let spare = conjoin-add (x - half) half half (y / 2) (omega arith) in
    bit_and-bitwise (suc x) y
    ∙ ap (λ t. t * 2 + min (suc x % 2) (y % 2))
        (ap (λ r. conjoin r half (y / 2)) (omega arith)
          ∙ spare
          ∙ sym (bit_and-bitwise half (y / 2)))

-- Nothing is left of a number under the empty mask; `n` bounds the number.
bit_and-empty : (n x : ℕ) → x ≤ n → bit_and x 0 ≡ 0
bit_and-empty n zero le = bit_and-bitwise 0 0
bit_and-empty zero (suc x) le = elim le [ ]
bit_and-empty (suc n) (suc x) le =
    bit_and-digit (suc x) 0 ∙ omega (arith, bit_and-empty n (suc x / 2) (omega arith))

twice_pow : (q k : ℕ) → q * 2 ^ suc k ≡ 2 * (q * 2 ^ k)
twice_pow q k = omega (arith, ap (λ (t : ℕ). q * t) (pow-suc 2 k))

-- The remainder by an even number, from the last digit up.
low_digit : (a m : ℕ) → 1 ≤ m → a % (2 * m) ≡ 2 * (a / 2 % m) + a % 2
low_digit a m pos =
    ap (λ t. t % (2 * m)) whole
    ∙ add-mul-mod_self_left low (2 * m) (a / 2 / m)
    ∙ mod-eq_of_lt {n = low} {m = 2 * m} (omega (arith, pos))
  where
    low : ℕ
    low = 2 * (a / 2 % m) + a % 2

    whole : a ≡ low + 2 * m * (a / 2 / m)
    whole = omega (arith, div-add-mod (a / 2) m)

-- A mask of `w` ones keeps a number of `w` bits.
bit_and_all : (w a : ℕ) → a < 2 ^ w → bit_and a (2 ^ w - 1) ≡ a
bit_and_all zero a h = omega (arith, bit_and-empty a a)
bit_and_all (suc w) a h = ground (
  arith,
  bit_and-digit a (2 ^ suc w - 1),
  pow-suc 2 w,
  one-le-pow w 2,
  bit_and_all w (a / 2) (omega (arith, pow-suc 2 w)),
)

-- A mask of the bits from `k` up to `w` clears the `k` low bits.
pub bit_and_high :
    (k w q r : ℕ)
    → r < 2 ^ k
    → q * 2 ^ k + r < 2 ^ w
    → k ≤ w
    → bit_and (q * 2 ^ k + r) (2 ^ w - 2 ^ k) ≡ q * 2 ^ k
bit_and_high zero w q r small fits le = ground (arith, bit_and_all w q (omega arith))
bit_and_high (suc k) zero q r small fits le = absurd (omega arith)
bit_and_high (suc k) (suc w) q r small fits le = ground (
  arith,
  bit_and-digit (q * 2 ^ suc k + r) (2 ^ suc w - 2 ^ suc k),
  twice_pow q k,
  pow-suc 2 k,
  pow-suc 2 w,
  pow-le-pow_right {n = 2} (omega arith) {i = k} {j = w} (omega arith),
  bit_and_high k w q (r / 2) (omega (arith, pow-suc 2 k))
      (omega (arith, twice_pow q k, pow-suc 2 k, pow-suc 2 w)) (omega arith),
)

-- A mask of the `k` low bits is the remainder by `2 ^ k`: digit by digit.
pub bit_and_low : (k a : ℕ) → bit_and a (2 ^ k - 1) ≡ a % 2 ^ k
bit_and_low zero a = omega (arith, bit_and-empty a a (omega arith))
bit_and_low (suc k) a = ground (
  arith,
  bit_and-digit a (2 ^ suc k - 1),
  bit_and_low k (a / 2),
  pow-suc 2 k,
  one-le-pow k 2,
  low_digit a (2 ^ k) (one-le-pow k 2 (omega arith)),
)
