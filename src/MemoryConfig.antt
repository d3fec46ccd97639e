-- ===== src/MemoryConfig.antt =====
-- Engine/src/delta/core/MemoryConfig.cpp and the record of MemoryConfig.h: how much memory the
-- engine plans to lock, and what is left for the global pool.
pub mod Budget
use project_delta.Prelude.{ℕ, ◌+◌, ◌-◌, ◌*◌, ◌/◌, ◌^◌, ◌%◌, Bool, not, leb, arith, ◌≡◌, refl}
use project_delta.Word.{u64, add64, sub64, mul64, align}
use project_delta.Build.{Build, Outcome, returns, aborted, ◌>>=◌, ◌>>◌, assert}
use project_delta.Pal.{Pal}
use project_delta.EngineTypes.Sizes.{thread_execution_context_size}
use project_delta.MemoryMap
use project_delta.MemoryMap.Main
use project_delta.MemoryMap.Worker

pub record EngineMemoryConfig : Type 0 where
  pub total_physical_ram : ℕ
  pub max_allowed_physical : ℕ
  pub thread_soft_baseline : ℕ
  pub active_lock_allocation : ℕ
  pub global_pool_size : ℕ

-- PRECOMPUTABLE_CONST
unfoldable pub precomputable_const : ℕ
unfolding thread_execution_context_size
precomputable_const =
    thread_execution_context_size + MemoryMap.virt_zone_ta_baseline + Worker.virt_zone_baseline_sum

-- `rawLockBudget`
unfoldable pub raw_lock_budget : ℕ → ℕ
unfolding precomputable_const
raw_lock_budget total_threads =
    sub64 (add64 (mul64 total_threads precomputable_const) Main.virt_zone_baseline_sum)
      Worker.virt_zone_baseline_sum

unfoldable pub plan : ℕ → ℕ → ℕ → EngineMemoryConfig
plan physical_ram page_size total_threads =
    let allowed = mul64 (physical_ram / 10) 7 in
    let active = align (raw_lock_budget total_threads) page_size in
    record {
      total_physical_ram = physical_ram;
      max_allowed_physical = allowed;
      thread_soft_baseline = MemoryMap.virt_zone_ta_baseline;
      active_lock_allocation = active;
      global_pool_size = sub64 allowed active;
    }

-- MemoryConfig_Shutdown: `g_MemoryConfig = {}`.
pub memory_config_shutdown : EngineMemoryConfig
memory_config_shutdown = record {
  total_physical_ram = 0;
  max_allowed_physical = 0;
  thread_soft_baseline = 0;
  active_lock_allocation = 0;
  global_pool_size = 0;
}

module _ (pal : Pal) where
  open pal use {World, memory_elevate_lock_limit}

  pub record Initialized : Type 0 where
    pub config : EngineMemoryConfig
    pub warned : Bool
    pub world : World

  -- MemoryConfig_Initialize. `warned` says that the warning is printed.
  unfoldable pub memory_config_initialize : Build → ℕ → ℕ → ℕ → World → Outcome Initialized
  memory_config_initialize build physical_ram page_size total_threads w = do
    let g = plan physical_ram page_size total_threads
    assert build (leb g.active_lock_allocation g.global_pool_size)
    let elevated = memory_elevate_lock_limit w g.active_lock_allocation
    returns (record { config = g; warned = not elevated.0; world = elevated.1 })
