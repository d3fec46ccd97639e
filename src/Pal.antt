-- ===== src/Pal.antt =====
-- Engine/src/delta/platform/os_internal.h: the platform layer as the engine's core sees it, an
-- interface over the state of the operating system. A pointer that is 0 is nullptr.
use project_delta.Prelude.{ℕ, Bool}
use project_delta.Prelude.Int.{ℤ}

-- The opaque bytes of `Timer`, read as `Timer_Internal`.
pub record Timer : Type 0 where
  pub freq : ℤ
  pub base_start_time : ℤ

-- The calls that Engine/src/delta/core makes of the platform layer. Each returns its result and the
-- state that it leaves.
pub record Pal : Type 1 where
  pub World : Type 0
  pub memory_reserve : World → ℕ → ℕ × World
  pub memory_commit : World → ℕ → ℕ → ℕ × World
  pub memory_release : World → ℕ → World
  pub memory_lock : World → ℕ → ℕ → Bool × World
  pub memory_elevate_lock_limit : World → ℕ → Bool × World
  pub timer_initialize : World → Timer × World
  pub thread_get_current_handle : World → ℕ × World
  pub sync_create_semaphore : World → ℕ × World
