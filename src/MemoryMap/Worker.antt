-- ===== src/MemoryMap/Worker.antt =====
-- Namespace MemoryMap::Worker of Engine/src/delta/core/MemoryConfig.h. Its VIRT_ZONE_TA_* hide the
-- generic ones from the point of their declaration on; VIRT_ZONE_QUEUE_OFFSET still uses those.
use project_delta.Prelude.{ℕ, ◌+◌, ◌^◌}
use project_delta.MemoryMap
use project_delta.MemoryMap.{uint64_max}

abbrev pub virt_zone_queue_offset : ℕ
virt_zone_queue_offset = MemoryMap.virt_zone_ta_offset + MemoryMap.virt_zone_ta_size

abbrev pub virt_zone_queue_size : ℕ
virt_zone_queue_size = 2 ^ 16

abbrev pub virt_zone_queue_baseline : ℕ
virt_zone_queue_baseline = uint64_max

abbrev pub virt_zone_ta_offset : ℕ
virt_zone_ta_offset = virt_zone_queue_offset + virt_zone_queue_size

abbrev pub virt_zone_ta_size : ℕ
virt_zone_ta_size = 2 ^ 30

abbrev pub virt_zone_ta_baseline : ℕ
virt_zone_ta_baseline = 2 ^ 26

abbrev pub virt_zone_cpa_offset : ℕ
virt_zone_cpa_offset = virt_zone_ta_offset + virt_zone_ta_size

abbrev pub virt_zone_cpa_size : ℕ
virt_zone_cpa_size = 2 ^ 33

abbrev pub virt_zone_cpa_baseline : ℕ
virt_zone_cpa_baseline = 2 ^ 27

abbrev pub virt_zone_sa_offset : ℕ
virt_zone_sa_offset = virt_zone_cpa_offset + virt_zone_cpa_size

abbrev pub virt_zone_sa_size : ℕ
virt_zone_sa_size = 2 ^ 32

abbrev pub virt_zone_sa_baseline : ℕ
virt_zone_sa_baseline = 2 ^ 26

abbrev pub virt_zone_io_offset : ℕ
virt_zone_io_offset = virt_zone_sa_offset + virt_zone_sa_size

abbrev pub virt_zone_io_size : ℕ
virt_zone_io_size = 2 ^ 30

abbrev pub virt_zone_io_baseline : ℕ
virt_zone_io_baseline = uint64_max

abbrev pub virt_zone_baseline_sum : ℕ
virt_zone_baseline_sum = virt_zone_ta_baseline + virt_zone_cpa_baseline + virt_zone_sa_baseline
