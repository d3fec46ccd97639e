-- ===== src/Word.antt =====
-- `size_t`, `uintptr_t` and `uint32_t` of the target (amd64), and the macro ALIGN of
-- Engine/src/delta/core/ThreadContext.cpp.
pub mod Bits
pub mod Align
use Prim.Native.Nat.{bit_and}
use project_delta.Prelude.{ℕ, ◌+◌, ◌-◌, ◌*◌, ◌%◌, ◌^◌, ◌≡◌, refl}

abbrev pub u64 : ℕ → ℕ
u64 n = n % 2 ^ 64

abbrev pub u32 : ℕ → ℕ
u32 n = n % 2 ^ 32

-- Unsigned sums, differences and products wrap; 2 ^ 64 is added first since `-` stops at 0.
abbrev pub add64 : ℕ → ℕ → ℕ
add64 a b = u64 (a + b)

abbrev pub sub64 : ℕ → ℕ → ℕ
sub64 a b = u64 (a + 2 ^ 64 - b)

abbrev pub mul64 : ℕ → ℕ → ℕ
mul64 a b = u64 (a * b)

abbrev pub sub32 : ℕ → ℕ → ℕ
sub32 a b = u32 (a + 2 ^ 32 - b)

-- `~x`
abbrev pub not64 : ℕ → ℕ
not64 x = 2 ^ 64 - 1 - x

-- `#define ALIGN(size, alignment) ((size + (alignment - 1)) & ~(alignment - 1))`
unfoldable pub align : ℕ → ℕ → ℕ
align size alignment = bit_and (add64 size (sub64 alignment 1)) (not64 (sub64 alignment 1))

align_test : align 13 8 ≡ 16
unfolding align
align_test = refl
