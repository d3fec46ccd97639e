-- ===== src/MemoryConfig/Budget.antt =====
-- The numbers of Engine/src/delta/core/MemoryConfig.cpp against the budget that they stand for.
use native.Mathlib.Nat.{pow-le-pow_right}
use project_delta.Prelude.{ℕ, not, ◌+◌, ◌*◌, ◌^◌, ◌≤◌, ◌<◌, ◌↔◌, ◌≡◌, refl, arith}
use project_delta.Word.{sub64, align}
use project_delta.Word.Align.{IsRoundedUp, align-IsRoundedUp}
use project_delta.Build.{Build, debug, aborted, returns}
use project_delta.Pal.{Pal}
use project_delta.EngineTypes.Sizes.{thread_execution_context_size}
use project_delta.MemoryConfig.{
  EngineMemoryConfig, raw_lock_budget, plan, Initialized, memory_config_initialize,
}

-- What has to be locked, in numbers: a context of 384 bytes and 64 MB of the transient arena for each
-- thread; 64 MB, 128 MB and 64 MB more for each worker; and 2 GB for the main thread, the whole zone of
-- its persistent storage, where the baseline of that zone is 64 MB.
abbrev pub lock_budget : ℕ → ℕ
lock_budget workers = (workers + 1) * (384 + 2 ^ 26) + workers * (2 ^ 26 + 2 ^ 27 + 2 ^ 26) + 2 ^ 31

-- The formula of the source is that sum.
raw_lock_budget-eq :
    (workers : ℕ) → workers < 2 ^ 32 → raw_lock_budget (workers + 1) ≡ lock_budget workers
unfolding raw_lock_budget thread_execution_context_size
raw_lock_budget-eq workers h = omega arith

page-le : (k : ℕ) → k ≤ 32 → 2 ^ k ≤ 2 ^ 32
page-le k h = pow-le-pow_right {n = 2} (omega arith) {i = k} {j = 32} h

lock_budget-le : (workers : ℕ) → workers < 2 ^ 32 → lock_budget workers ≤ 2 ^ 61
unfolding thread_execution_context_size
lock_budget-le workers h = omega arith

active-eq :
    (ram page workers : ℕ)
    → workers < 2 ^ 32
    → (plan ram page (workers + 1)).active_lock_allocation ≡ align (lock_budget workers) page
unfolding plan
active-eq ram page workers h = rw (raw_lock_budget-eq workers h)

-- With fewer than 2 ^ 32 workers and a page of a power of two up to 2 ^ 32, the memory to lock is the
-- least multiple of the page that covers 384 bytes and 64 MB for each thread, 256 MB for each worker
-- and 2 GB for the main thread.
pub plan-IsRoundedUp :
    (ram k workers : ℕ)
    → k ≤ 32
    → workers < 2 ^ 32
    → IsRoundedUp
        (lock_budget workers)
        (2 ^ k)
        (plan ram (2 ^ k) (workers + 1)).active_lock_allocation
plan-IsRoundedUp ram k workers hk hw = rw (active-eq ram (2 ^ k) workers hw) (
    align-IsRoundedUp (lock_budget workers) k (omega arith)
      (omega (arith, lock_budget-le workers hw, page-le k hk)))

active-lt :
    (ram k workers : ℕ)
    → k ≤ 32
    → workers < 2 ^ 32
    → (plan ram (2 ^ k) (workers + 1)).active_lock_allocation < 2 ^ 62
active-lt ram k workers hk hw =
    omega
      (arith, (plan-IsRoundedUp ram k workers hk hw).least, lock_budget-le workers hw, page-le k hk)

record IsConsistent (ram page threads : ℕ) : Type 0 where
  pool :
      (plan ram page threads).global_pool_size
      ≡ sub64
          (plan ram page threads).max_allowed_physical
          (plan ram page threads).active_lock_allocation
  allowed : (plan ram page threads).max_allowed_physical < 2 ^ 64
  share : (plan ram page threads).max_allowed_physical * 10 ≤ ram * 7

plan-IsConsistent : (ram page threads : ℕ) → IsConsistent ram page threads
unfolding plan
plan-IsConsistent ram page threads = record {
  pool = refl;
  allowed = omega arith;
  share = omega arith;
}

-- The plan for pages of `2 ^ k` bytes.
abbrev pub planned : ℕ → ℕ → ℕ → EngineMemoryConfig
planned ram k workers = plan ram (2 ^ k) (workers + 1)

module _ (pal : Pal) (w : pal.World) (ram k workers : ℕ) where
  -- With at least one thread and a page of a power of two, a debug build stops in
  -- MemoryConfig_Initialize exactly when the memory to lock is at most what the engine may use, and
  -- more than half of it.
  pub memory_config_initialize-aborted_iff :
      k ≤ 32
      → workers < 2 ^ 32
      → (memory_config_initialize pal debug ram (2 ^ k) (workers + 1) w ≡ aborted) ↔ (
          ((planned ram k workers).active_lock_allocation
            ≤ (planned ram k workers).max_allowed_physical)
          × ((planned ram k workers).max_allowed_physical
              < 2 * (planned ram k workers).active_lock_allocation))
  unfolding memory_config_initialize
  memory_config_initialize-aborted_iff hk hw =
      ground (arith, plan-IsConsistent ram (2 ^ k) (workers + 1), active-lt ram k workers hk hw)

  abbrev result : Initialized pal
  result =
      let elevated =
        pal.memory_elevate_lock_limit w (planned ram k workers).active_lock_allocation in
      record { config = planned ram k workers; warned = not elevated.0; world = elevated.1 }

  -- On a machine with enough memory the two parts of the plan make up what the engine may use, which
  -- is at most seven tenths of the machine, and the working set is raised by the first of them.
  memory_config_initialize_enough :
      k ≤ 32
      → workers < 2 ^ 32
      → 2 * (planned ram k workers).active_lock_allocation
        ≤ (planned ram k workers).max_allowed_physical
      → (r : Initialized pal) × (memory_config_initialize pal debug ram (2 ^ k) (workers + 1) w
          ≡ returns r)
        × (r.config.active_lock_allocation + r.config.global_pool_size
            ≡ r.config.max_allowed_physical)
        × (r.config.max_allowed_physical * 10 ≤ ram * 7)
        × (r.world
            ≡ (pal.memory_elevate_lock_limit w (planned ram k workers).active_lock_allocation).1)
  unfolding memory_config_initialize
  memory_config_initialize_enough hk hw enough =
      let facts = plan-IsConsistent ram (2 ^ k) (workers + 1) in
      (
        result,
        ground (arith, facts, active-lt ram k workers hk hw),
        omega (arith, facts, active-lt ram k workers hk hw),
        facts.share,
        refl,
      )

  -- On a machine with too little memory no build stops: the size of the pool wraps, and comes out
  -- larger than the machine's memory.
  pub memory_config_initialize_wraps :
      k ≤ 32
      → workers < 2 ^ 32
      → ram < 2 ^ 63
      → (planned ram k workers).max_allowed_physical
        < (planned ram k workers).active_lock_allocation
      → (build : Build)
      → (r : Initialized pal) × (memory_config_initialize pal build ram (2 ^ k) (workers + 1) w
          ≡ returns r)
        × (ram < r.config.global_pool_size)
        × (r.config.max_allowed_physical < r.config.active_lock_allocation)
  unfolding memory_config_initialize
  memory_config_initialize_wraps hk hw hr little build =
      let facts = plan-IsConsistent ram (2 ^ k) (workers + 1) in
      (
        result,
        ground (arith, facts, active-lt ram k workers hk hw),
        omega (arith, facts, active-lt ram k workers hk hw),
        little,
      )
