-- ===== src/MemoryMap.antt =====
-- The constants of Engine/src/delta/core/MemoryConfig.h: where the zones of a thread's slice of
-- address space lie, how long they are, and how much of each is committed at first. The C++
-- namespaces Main and Worker are the child modules of those names.
pub mod Main
pub mod Worker
pub mod Layout
use project_delta.Prelude.{ℕ, ◌-◌, ◌^◌}

abbrev pub uint64_max : ℕ
uint64_max = 2 ^ 64 - 1

abbrev pub virt_zone_space_length : ℕ
virt_zone_space_length = 2 ^ 35

abbrev pub virt_zone_ta_offset : ℕ
virt_zone_ta_offset = 0

abbrev pub virt_zone_ta_size : ℕ
virt_zone_ta_size = 2 ^ 30

abbrev pub virt_zone_ta_baseline : ℕ
virt_zone_ta_baseline = 2 ^ 26
