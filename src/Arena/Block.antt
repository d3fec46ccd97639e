-- ===== src/Arena/Block.antt =====
-- The block that ThreadArena_Allocate hands out.
use native.Mathlib.Nat.{one-le-pow}
use project_delta.Prelude.{ℕ, ◌+◌, ◌^◌, ◌≤◌, ◌<◌, ◌≡◌, arith}
use project_delta.Word.Align.{IsRoundedUp, align-IsRoundedUp}
use project_delta.EngineTypes.{ThreadArena}
use project_delta.Arena.{current_address, aligned_address, total_space}

-- Nothing that is computed for a request wraps: the arena's zone, a unit of alignment and the
-- request itself end below 2 ^ 64.
pub record Fits (a : ThreadArena) (size k : ℕ) : Type 0 where
  pub shift : k < 64
  pub room : a.backing_memory + a.max_capacity + 2 ^ k + size ≤ 2 ^ 64
  pub cursor : a.offset ≤ a.max_capacity

module _ (a : ThreadArena) (size k : ℕ) (f : Fits a size k) where
  current-eq : current_address a ≡ a.backing_memory + a.offset
  unfolding current_address
  current-eq = omega (arith, f, one-le-pow k 2)

  pub aligned-IsRoundedUp :
      IsRoundedUp (a.backing_memory + a.offset) (2 ^ k) (aligned_address a (2 ^ k))
  unfolding aligned_address
  aligned-IsRoundedUp =
      rw current-eq (align-IsRoundedUp (a.backing_memory + a.offset) k f.shift (omega (arith, f)))

  -- The new cursor stands at the end of the block.
  pub total_space-end :
      total_space a size (2 ^ k) + a.offset + a.backing_memory ≡ aligned_address a (2 ^ k) + size
  unfolding total_space
  total_space-end = omega (arith, f, current-eq, aligned-IsRoundedUp)

  pub total_space-lt : a.offset + total_space a size (2 ^ k) < 2 ^ 64
  total_space-lt = omega (arith, f, total_space-end, aligned-IsRoundedUp)
