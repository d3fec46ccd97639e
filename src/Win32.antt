-- ===== src/Win32.antt =====
-- Engine/src/delta/platform/os_win32.cpp, the platform layer on Windows. What the system answers is a
-- parameter: the instruction `cpuid`, `__popcnt64`, the C heap, and the functions of Windows.h that
-- are called. BOOL is Bool where it is tested, and a number where it is compared with TRUE.
pub mod Cores
pub mod Cpu
pub mod Privileges
pub mod Start
pub mod Memory
pub mod Threads
pub mod Affinity
pub mod Layer
pub mod Naming
pub mod Ticks
use project_delta.Prelude.{ℕ, Bool, List}
use project_delta.Prelude.Int.{ℤ}

-- The four words that `__cpuid` and `__cpuidex` store, as 32-bit patterns.
pub record CpuInfo : Type 0 where
  pub eax : ℕ
  pub ebx : ℕ
  pub ecx : ℕ
  pub edx : ℕ

-- A SYSTEM_LOGICAL_PROCESSOR_INFORMATION_EX: its `Relationship`, its `Size` in bytes, and the masks of
-- the `GroupCount` entries of `Processor.GroupMask`.
pub record CoreInfo : Type 0 where
  pub relationship : ℕ
  pub size : ℕ
  pub masks : List ℕ

-- The fields of SYSTEM_INFO that are read.
pub record SystemInfo : Type 0 where
  pub processor_architecture : ℕ
  pub page_size : ℕ
  pub number_of_processors : ℕ

-- THREADNAME_INFO, with the characters of the name.
pub record ThreadnameInfo : Type 0 where
  pub type : ℕ
  pub name : List ℕ
  pub thread_id : ℕ
  pub flags : ℕ

-- The arguments of `::RaiseException`: the last is a pointer to an array of 8-byte words, of which the
-- system reads `number_of_arguments`: the three of that structure, and `behind` what follows it.
pub record Exception : Type 0 where
  pub code : ℕ
  pub flags : ℕ
  pub number_of_arguments : ℕ
  pub arguments : ThreadnameInfo
  pub behind : List ℕ

-- Each call returns what it stores through its pointers after its result, and the state it leaves.
pub record Win32 : Type 1 where
  pub World : Type 0
  pub cpuid : ℕ → ℕ → CpuInfo  -- leaf and subleaf
  pub popcnt64 : ℕ → ℕ
  pub malloc : World → ℕ → ℕ × World
  pub free : World → ℕ → World
  pub get_system_info : World → SystemInfo × World
  pub get_logical_processor_information_ex : World → ℕ → ℕ → Bool × ℕ × (ℕ → CoreInfo) × World  -- buffer and size; the record at each offset
  pub open_process_token : World → Bool × ℕ × World
  pub lookup_privilege_value : World → Bool × ℕ × World
  pub adjust_token_privileges : World → ℕ → ℕ → Bool × World
  pub get_last_error : World → ℕ
  pub close_handle : World → ℕ → World
  pub virtual_alloc : World → ℕ → ℕ → ℕ → ℕ → ℕ × World
  pub virtual_free : World → ℕ → ℕ → ℕ → World
  pub virtual_lock : World → ℕ → ℕ → Bool × World
  pub get_process_working_set_size : World → Bool × ℕ × ℕ × World
  pub set_process_working_set_size_ex : World → ℕ → ℕ → ℕ → ℕ × World
  pub global_memory_status_ex : World → Bool × ℕ × ℕ × World
  pub query_performance_frequency : World → Bool × ℤ × World
  pub query_performance_counter : World → ℤ × World
  pub sleep : World → ℕ → World
  pub get_current_thread_id : World → ℕ
  pub get_thread_id : World → ℕ → ℕ
  pub get_current_thread : World → ℕ × World
  pub create_thread : World → ℕ → ℕ × World
  pub set_thread_affinity_mask : World → ℕ → ℕ → World
  pub wait_for_single_object : World → ℕ → World
  pub wait_for_multiple_objects : World → List ℕ → World
  pub create_semaphore : World → ℕ → ℕ → ℕ × World  -- initial and largest count
  pub release_semaphore : World → ℕ → ℕ → World
  pub stack_word : World → ℕ → ℕ  -- the words behind a local structure
  pub raise_exception : World → Exception → World
