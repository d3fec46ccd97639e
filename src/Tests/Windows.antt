-- ===== src/Tests/Windows.antt =====
-- A machine with two cores of two processors each, beside Engine/src/delta/platform/os_win32.cpp.
use project_delta.Prelude.{
  ◌^◌, ℕ, ◌+◌, ◌-◌, ◌/◌, ◌%◌, ◌≡◌, inr, refl, arith, ltb, ◌==◌, if◌then◌else◌, Bool, true, false,
  some, [], ◌∷◌,
}
use project_delta.Prelude.Int.{pos}
use project_delta.Word.{u32}
use project_delta.Win32.{CpuInfo, CoreInfo, SystemInfo, Win32}
use project_delta.Win32.Cores.{IsLaid, laid, laid_end, cores, processors}
use project_delta.Win32.Cpu.{OsInfo}
use project_delta.Win32.Privileges.{IsCounted, set_process_privileges, set_process_privileges-held}
use project_delta.Win32.Start.{
  buffer_of, answer_of, initialize, initialize-cores, initialize_uncounted,
}

abbrev pub four_bits : ℕ → ℕ
four_bits mask = mask % 2 + mask / 2 % 2 + mask / 4 % 2 + mask / 8 % 2

abbrev pub two_cores : ℕ → CoreInfo
two_cores ptr =
    if ptr == 0
    then record { relationship = 0; size = 48; masks = 3 ∷ [] }
    else record { relationship = 0; size = 48; masks = 12 ∷ [] }

-- The state is how often each handle is open, and the token is the handle 7. `answers` tells whether the
-- cores can be asked for.
abbrev pub machine : Bool → Win32
machine answers = record {
  World = ℕ → ℕ;
  cpuid = λ leaf subleaf. record { eax = 0; ebx = 0; ecx = 0; edx = 0 };
  popcnt64 = four_bits;
  malloc = λ w size. (64, w);
  free = λ w address. w;
  get_system_info =
      λ w. (record { processor_architecture = 9; page_size = 4096; number_of_processors = 4 }, w);
  get_logical_processor_information_ex = λ w buffer size. (answers, 96, two_cores, w);
  open_process_token = λ w. (true, 7, λ i. w i + (if i == 7 then 1 else 0));
  lookup_privilege_value = λ w. (false, 0, w);
  adjust_token_privileges = λ w token luid. (true, w);
  get_last_error = λ w. 0;
  close_handle = λ w handle i. w i - (if i == handle then 1 else 0);
  virtual_alloc = λ w address size type protect. (if address == 0 then 2 ^ 40 else address, w);
  virtual_free = λ w address size type. w;
  virtual_lock = λ w address size. (true, w);
  get_process_working_set_size = λ w. (true, 0, 0, w);
  set_process_working_set_size_ex = λ w least most flags. (1, w);
  global_memory_status_ex = λ w. (true, 2 ^ 36, 2 ^ 35, w);
  query_performance_frequency = λ w. (true, pos 1, w);
  query_performance_counter = λ w. (pos 0, w);
  sleep = λ w milliseconds. w;
  get_current_thread_id = λ w. 1;
  get_thread_id = λ w handle. handle;
  get_current_thread = λ w. (1, w);
  create_thread = λ w info. (1, w);
  set_thread_affinity_mask = λ w thread mask i. if i == thread then mask else w i;
  wait_for_single_object = λ w handle. w;
  wait_for_multiple_objects = λ w handles. w;
  create_semaphore = λ w initial largest. (1, w);
  release_semaphore = λ w handle count. w;
  stack_word = λ w i. 0;
  raise_exception = λ w e. w;
}

abbrev pub nothing_open : ℕ → ℕ
nothing_open i = 0

pub both_cores-IsLaid : IsLaid two_cores 96 0 (two_cores 0 ∷ two_cores 48 ∷ [])
both_cores-IsLaid = laid (omega arith) (omega arith) (laid (omega arith) (omega arith) laid_end)

initialize-cores_example :
    (info : OsInfo) × (w' : ℕ → ℕ) × (initialize (machine true) nothing_open ≡ some (info, w'))
    × (info.cpu_physical_core_count ≡ u32 (cores (two_cores 0 ∷ two_cores 48 ∷ [])))
    × (info.cpu_logical_processor_count
        ≡ u32 (processors four_bits (two_cores 0 ∷ two_cores 48 ∷ [])))
    × (info.cpu_has_smt
        ≡ ltb
            (u32 (cores (two_cores 0 ∷ two_cores 48 ∷ [])))
            (u32 (processors four_bits (two_cores 0 ∷ two_cores 48 ∷ []))))
    × (info.os_page_size ≡ 4096)
unfolding project_delta.Win32.Start.allocate_buffer
initialize-cores_example =
    initialize-cores (machine true) nothing_open (two_cores 0 ∷ two_cores 48 ∷ []) refl refl
      both_cores-IsLaid

initialize_uncounted_example :
    (info : OsInfo) × (w' : ℕ → ℕ) × (initialize (machine false) nothing_open ≡ some (info, w'))
    × (info.cpu_physical_core_count ≡ 0)
    × (info.cpu_logical_processor_count ≡ 0)
    × (info.cpu_has_smt ≡ false)
initialize_uncounted_example = initialize_uncounted (machine false) nothing_open (inr refl)

handles-IsCounted : IsCounted (machine true) (λ w i. w i)
handles-IsCounted = record {
  opening = λ w i. refl;
  looking_up = λ w i. refl;
  adjusting = λ w token luid i. refl;
  closing = λ w handle i is. ground arith;
}

set_process_privileges-held_example :
    (set_process_privileges (machine true) nothing_open).1 7 ≡ nothing_open 7
set_process_privileges-held_example =
    set_process_privileges-held (machine true) (λ w i. w i) nothing_open 7 handles-IsCounted
