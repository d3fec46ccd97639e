-- ===== src/Win32/Cpu.antt =====
-- getArchitectureString and fetchCpuidValues of Engine/src/delta/platform/os_win32.cpp, and OSInfo of
-- Engine/include/delta/platform/os.h.
use Prim.Native.Nat.{bit_and}
use project_delta.Prelude.{
  ℕ, ◌^◌, leb, ◌==◌, if◌then◌else◌, Bool, false, not, List, [], ◌∷◌, Option, none,
}
use project_delta.Win32.{CpuInfo, Win32}

-- The string literals that getArchitectureString returns: "x86", "ARM", "IA64", "AMD64", "ARM64" and
-- "UNKNOWN".
pub data Architecture : Type 0 where
  x86 arm ia64 amd64 arm64 unknown : Architecture

unfoldable pub get_architecture_string : ℕ → Architecture
get_architecture_string arch =
    if arch == 0
    then x86
    else if arch == 5
    then arm
    else if arch == 6
    then ia64
    else if arch == 9
    then amd64
    else if arch == 12
    then arm64
    else unknown

-- The characters of cpuBrandString: twelve words, "(unspecified)", or the zeros of memset.
pub data Brand : Type 0 where
  zeros unspecified : Brand
  words : (c1 c2 c3 : CpuInfo) → Brand

-- cpuArchitecture is none for nullptr, and cpuManufacturerId is three words.
pub record OsInfo : Type 0 where
  pub cpu_architecture : Option Architecture
  pub cpu_physical_core_count : ℕ
  pub cpu_logical_processor_count : ℕ
  pub os_page_size : ℕ
  pub cpu_brand_string : Brand
  pub cpu_manufacturer_id : List ℕ
  pub cpu_has_smt : Bool
  pub cpu_has_avx2 : Bool
  pub cpu_has_avx512f : Bool
  pub cpu_has_avx512cd : Bool
  pub cpu_has_avx512er : Bool
  pub cpu_has_avx512pf : Bool

-- After `memset`.
abbrev pub cleared : OsInfo
cleared = record {
  cpu_architecture = none;
  cpu_physical_core_count = 0;
  cpu_logical_processor_count = 0;
  os_page_size = 0;
  cpu_brand_string = zeros;
  cpu_manufacturer_id = 0 ∷ 0 ∷ 0 ∷ [];
  cpu_has_smt = false;
  cpu_has_avx2 = false;
  cpu_has_avx512f = false;
  cpu_has_avx512cd = false;
  cpu_has_avx512er = false;
  cpu_has_avx512pf = false;
}

-- `((register & (1 << flag)) != 0)`
abbrev pub check_cpuid_flag : ℕ → ℕ → Bool
check_cpuid_flag register flag = not (bit_and register (2 ^ flag) == 0)

module _ (sys : Win32) where
  open sys use {cpuid}

  -- An int is compared with 0x80000004, which is unsigned.
  unfoldable pub brand_string : Brand
  brand_string =
      if leb 0x80000004 (cpuid 0x80000000 0).eax
      then words (cpuid 0x80000002 0) (cpuid 0x80000003 0) (cpuid 0x80000004 0)
      else unspecified

  unfoldable pub fetch_cpuid_values : OsInfo → OsInfo
  fetch_cpuid_values info =
      let vendor = cpuid 0 0 in
      let features = (cpuid 7 0).ebx in
      record info {
        cpu_manufacturer_id = vendor.ebx ∷ vendor.edx ∷ vendor.ecx ∷ [];
        cpu_has_avx2 = check_cpuid_flag features 5;
        cpu_has_avx512f = check_cpuid_flag features 16;
        cpu_has_avx512cd = check_cpuid_flag features 28;
        cpu_has_avx512er = check_cpuid_flag features 27;
        cpu_has_avx512pf = check_cpuid_flag features 26;
        cpu_brand_string = brand_string;
      }
