-- ===== src/Win32/Start.antt =====
-- Initialize of Engine/src/delta/platform/os_win32.cpp.
use project_delta.Prelude.{
  ℕ, suc, ◌+◌, ◌≡◌, ◌⊎◌, inl, inr, refl, arith, ltb, ◌==◌, if◌then◌else◌, Bool, true, false, Option,
  none, some, List,
}
use project_delta.Word.{u32}
use project_delta.Win32.{CoreInfo, SystemInfo, Win32}
use project_delta.Win32.Cpu.{OsInfo, cleared, get_architecture_string, fetch_cpuid_values}
use project_delta.Win32.Privileges.{set_process_privileges}
use project_delta.Win32.Cores.{
  Counts, counted, IsLaid, cores, processors, count_loop, count_loop-counts,
}

infixl 55 ◌>>=◌
abbrev ◌>>=◌ {ℓ κ} : {A : Type ℓ} {B : Type κ} → Option A → (A → Option B) → Option B
none >>= f = none
some x >>= f = f x

module _ (sys : Win32) where
  open sys use {
    World, popcnt64, malloc, free, get_system_info, get_logical_processor_information_ex,
  }

  -- The buffer, its size, and the state after `malloc`.
  unfoldable pub allocate_buffer : World → ℕ × ℕ × World
  allocate_buffer w =
      let asked = get_logical_processor_information_ex w 0 0 in
      let (temp_buffer, w') = malloc asked.3 asked.1 in (temp_buffer, asked.1, w')

  unfoldable pub count_buffer : Bool × ℕ × (ℕ → CoreInfo) × World → Option (Counts × World)
  count_buffer (got, buffer_size, buffer, w) =
      if got
      then (do
        counts ← count_loop popcnt64 (suc buffer_size) buffer buffer_size 0 (counted 0 0)
        some (counts, w))
      else some (counted 0 0, w)

  unfoldable pub count_cores : ℕ × ℕ × World → Option (Counts × World)
  count_cores (temp_buffer, buffer_size, w) =
      if temp_buffer == 0
      then some (counted 0 0, w)
      else count_buffer (get_logical_processor_information_ex w temp_buffer buffer_size)

  -- The structure that Initialize fills.
  unfoldable pub os_info : SystemInfo → Counts → OsInfo
  os_info info counts =
      let filled = record (fetch_cpuid_values sys cleared) {
        cpu_architecture = some (get_architecture_string info.processor_architecture);
        os_page_size = info.page_size;
        cpu_logical_processor_count = info.number_of_processors;
      } in
      record filled {
        cpu_physical_core_count = counts.physical_cores;
        cpu_logical_processor_count = counts.logical_processors;
        cpu_has_smt = ltb counts.physical_cores counts.logical_processors;
      }

  -- The warning on the console is left out.
  unfoldable pub initialize : World → Option (OsInfo × World)
  initialize w = do
    let (info, w1) = get_system_info w
    let buffer = allocate_buffer w1
    (counts, w2) ← count_cores buffer
    let (privileges_set, w3) = set_process_privileges sys (free w2 buffer.0)
    some (os_info info counts, w3)

  -- What GetLogicalProcessorInformationEx answers when Initialize gives it the buffer.
  abbrev pub buffer_of : World → ℕ × ℕ × World
  buffer_of w = allocate_buffer (get_system_info w).1

  abbrev pub answer_of : World → Bool × ℕ × (ℕ → CoreInfo) × World
  answer_of w = get_logical_processor_information_ex (buffer_of w).2 (buffer_of w).0 (buffer_of w).1

  initialize-count_cores :
      (w : World) (counts : Counts) (w2 : World)
      → count_cores (buffer_of w) ≡ some (counts, w2)
      → initialize w
        ≡ some (
          os_info (get_system_info w).0 counts,
          (set_process_privileges sys (free w2 (buffer_of w).0)).1,
        )
  unfolding initialize
  initialize-count_cores w counts w2 h = rw h refl

  count_cores-laid :
      (w : World) (records : List CoreInfo)
      → ((buffer_of w).0 == 0) ≡ false
      → (answer_of w).0 ≡ true
      → IsLaid (answer_of w).2 (answer_of w).1 0 records
      → count_cores (buffer_of w)
        ≡ some (counted (cores records) (processors popcnt64 records), (answer_of w).3)
  unfolding count_cores count_buffer
  count_cores-laid w records given got lies =
      let size : ℕ = (answer_of w).1 in
      let counts =
        count_loop-counts popcnt64 (suc size) (answer_of w).2 size 0 0 0 records lies
          (omega arith) in
      let sum : (n : ℕ) → 0 + n ≡ n = λ n. omega arith in
      rw (given, got, counts)
        (λ i.
          some (
            counted (sum (cores records) i) (sum (processors popcnt64 records) i),
            (answer_of w).3,
          ))

  count_cores-no_answer :
      (w : World)
      → ((buffer_of w).0 ≡ 0) ⊎ ((answer_of w).0 ≡ false)
      → (w2 : World) × (count_cores (buffer_of w) ≡ some (counted 0 0, w2))
  unfolding count_cores count_buffer
  count_cores-no_answer w (inl e) =
      let none_given : ((buffer_of w).0 == 0) ≡ true = ground arith in
      ((buffer_of w).2, rw none_given refl)
  count_cores-no_answer w (inr e) =
      elim ((buffer_of w).0 == 0)
        as (λ b.
          (w2 : World) × ((if b
              then some (counted 0 0, (buffer_of w).2)
              else count_buffer (answer_of w))
            ≡ some (counted 0 0, w2))) [
              | true ↦ ((buffer_of w).2, refl)
              | false ↦ ((answer_of w).3, rw e refl)
            ]

  -- If `malloc` gives a buffer and the system fills it with records that lie one behind another up to its
  -- end, none of size 0, Initialize ends, and leaves the number of records that are of a core, the
  -- number of bits that the masks of these have set, both modulo 2 ^ 32, SMT if the second is larger,
  -- and the system's page size.
  pub initialize-cores :
      (w : World) (records : List CoreInfo)
      → ((buffer_of w).0 == 0) ≡ false
      → (answer_of w).0 ≡ true
      → IsLaid (answer_of w).2 (answer_of w).1 0 records
      → (info : OsInfo) × (w' : World) × (initialize w ≡ some (info, w'))
        × (info.cpu_physical_core_count ≡ u32 (cores records))
        × (info.cpu_logical_processor_count ≡ u32 (processors popcnt64 records))
        × (info.cpu_has_smt ≡ ltb (u32 (cores records)) (u32 (processors popcnt64 records)))
        × (info.os_page_size ≡ (get_system_info w).0.page_size)
  unfolding os_info
  initialize-cores w records given got lies =
      let counts : Counts = counted (cores records) (processors popcnt64 records) in
      (
        os_info (get_system_info w).0 counts,
        _,
        initialize-count_cores w counts (answer_of w).3 (count_cores-laid w records given got lies),
        refl,
        refl,
        refl,
        refl,
      )

  -- If `malloc` gives no buffer or the system does not fill it, Initialize ends and leaves 0 as the number
  -- of cores and of processors, whatever GetSystemInfo has said before, and no SMT.
  pub initialize_uncounted :
      (w : World)
      → ((buffer_of w).0 ≡ 0) ⊎ ((answer_of w).0 ≡ false)
      → (info : OsInfo) × (w' : World) × (initialize w ≡ some (info, w'))
        × (info.cpu_physical_core_count ≡ 0)
        × (info.cpu_logical_processor_count ≡ 0)
        × (info.cpu_has_smt ≡ false)
  unfolding os_info
  initialize_uncounted w unanswered =
      let (w2, h) = count_cores-no_answer w unanswered in
      (
        os_info (get_system_info w).0 (counted 0 0),
        _,
        initialize-count_cores w (counted 0 0) w2 h,
        refl,
        refl,
        refl,
      )
