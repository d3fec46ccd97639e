-- ===== src/Win32/Memory.antt =====
-- The memory calls of Engine/src/delta/platform/os_win32.cpp, its timestamps, and getMemoryStatus.
use project_delta.Prelude.{ℕ, ◌==◌, if◌then◌else◌, Bool, false}
use project_delta.Prelude.Int.{ℤ}
use project_delta.Word.{add64}
use project_delta.Pal.{Timer}
use project_delta.Build.{Build, Outcome, returns, assert, ◌>>◌}
use project_delta.Win32.{Win32}

abbrev pub mem_commit : ℕ
mem_commit = 0x1000

abbrev pub mem_reserve : ℕ
mem_reserve = 0x2000

abbrev pub mem_decommit : ℕ
mem_decommit = 0x4000

abbrev pub mem_release : ℕ
mem_release = 0x8000

abbrev pub page_noaccess : ℕ
page_noaccess = 1

abbrev pub page_readwrite : ℕ
page_readwrite = 4

-- QUOTA_LIMITS_HARDWS_MIN_DISABLE | QUOTA_LIMITS_HARDWS_MAX_ENABLE
abbrev pub quota_limits : ℕ
quota_limits = 6

pub record MemoryStatus : Type 0 where
  pub physical_installed : ℕ
  pub physical_free : ℕ

module _ (sys : Win32) where
  open sys use {
    World, virtual_alloc, virtual_free, virtual_lock, get_process_working_set_size,
    set_process_working_set_size_ex, global_memory_status_ex, query_performance_frequency,
    query_performance_counter,
  }

  unfoldable pub memory_reserve : World → ℕ → ℕ × World
  memory_reserve w reservation_size = virtual_alloc w 0 reservation_size mem_reserve page_noaccess

  unfoldable pub memory_commit : World → ℕ → ℕ → ℕ × World
  memory_commit w mem commit_size = virtual_alloc w mem commit_size mem_commit page_readwrite

  unfoldable pub memory_decommit : World → ℕ → ℕ → World
  memory_decommit w mem decommit_size = virtual_free w mem decommit_size mem_decommit

  unfoldable pub memory_release : World → ℕ → World
  memory_release w ptr = virtual_free w ptr 0 mem_release

  unfoldable pub memory_lock : World → ℕ → ℕ → Bool × World
  memory_lock w mem bytes = virtual_lock w mem bytes

  unfoldable pub memory_elevate_lock_limit : World → ℕ → Bool × World
  memory_elevate_lock_limit w bytes_to_lock =
      let (got, min_working_set, max_working_set, w') = get_process_working_set_size w in
      let (result, w2) =
        set_process_working_set_size_ex w' (add64 min_working_set bytes_to_lock)
          (add64 max_working_set bytes_to_lock) quota_limits in
      if got then (result == 1, w2) else (false, w')

  unfoldable pub get_memory_status : World → MemoryStatus × World
  get_memory_status w =
      let (got, total_phys, avail_phys, w') = global_memory_status_ex w in
      if got
      then (record { physical_installed = total_phys; physical_free = avail_phys }, w')
      else (record { physical_installed = 0; physical_free = 0 }, w')

  unfoldable pub timer_initialize : Build → World → Outcome (Timer × World)
  timer_initialize build w = do
    let (freq_result, freq, w1) = query_performance_frequency w
    assert build freq_result
    let (start, w2) = query_performance_counter w1
    returns (record { freq = freq; base_start_time = start }, w2)

  unfoldable pub timer_get_timestamp : World → ℤ × World
  timer_get_timestamp w = query_performance_counter w
