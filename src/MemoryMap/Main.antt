-- ===== src/MemoryMap/Main.antt =====
-- Namespace MemoryMap::Main of Engine/src/delta/core/MemoryConfig.h.
use project_delta.Prelude.{ℕ, ◌+◌, ◌^◌}
use project_delta.MemoryMap.{virt_zone_ta_offset, virt_zone_ta_size}

abbrev pub virt_zone_ps_offset : ℕ
virt_zone_ps_offset = virt_zone_ta_offset + virt_zone_ta_size

abbrev pub virt_zone_ps_size : ℕ
virt_zone_ps_size = 2 ^ 31

abbrev pub virt_zone_ps_baseline : ℕ
virt_zone_ps_baseline = 2 ^ 26

-- The source sets the sum of the baselines to the zone's size.
abbrev pub virt_zone_baseline_sum : ℕ
virt_zone_baseline_sum = virt_zone_ps_size
