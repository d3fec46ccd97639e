-- ===== src/MemoryMap/Layout.antt =====
-- How the zones of Engine/src/delta/core/MemoryConfig.h lie in the slices that
-- Engine/src/delta/core/ThreadContext.cpp hands to the threads: thread `i` has the
-- VIRT_ZONE_SPACE_LENGTH bytes from `pool + i * VIRT_ZONE_SPACE_LENGTH` on.
use project_delta.Prelude.{ℕ, ◌+◌, ◌*◌, ◌≤◌, ◌<◌, ◌≡◌, ◌≢◌, ◌⊎◌, inl, inr, arith, ℕ_discrete}
use project_delta.MemoryMap
use project_delta.MemoryMap.Main
use project_delta.MemoryMap.Worker

-- The zones that the header names, with the source's abbreviations.
pub data Zone : Type 0 where
  ta ps queue worker_ta cpa sa io : Zone

abbrev pub zone_offset : Zone → ℕ
zone_offset ta = MemoryMap.virt_zone_ta_offset
zone_offset ps = Main.virt_zone_ps_offset
zone_offset queue = Worker.virt_zone_queue_offset
zone_offset worker_ta = Worker.virt_zone_ta_offset
zone_offset cpa = Worker.virt_zone_cpa_offset
zone_offset sa = Worker.virt_zone_sa_offset
zone_offset io = Worker.virt_zone_io_offset

abbrev pub zone_size : Zone → ℕ
zone_size ta = MemoryMap.virt_zone_ta_size
zone_size ps = Main.virt_zone_ps_size
zone_size queue = Worker.virt_zone_queue_size
zone_size worker_ta = Worker.virt_zone_ta_size
zone_size cpa = Worker.virt_zone_cpa_size
zone_size sa = Worker.virt_zone_sa_size
zone_size io = Worker.virt_zone_io_size

-- Thread 0 is the main thread; every thread has the generic transient arena.
abbrev pub Owns : ℕ → Zone → Type 0
Owns i ta = Unit {0}
Owns i ps = i ≡ 0
Owns i _ = 0 < i

abbrev pub zone_start : ℕ → ℕ → Zone → ℕ
zone_start pool i z = pool + i * MemoryMap.virt_zone_space_length + zone_offset z

abbrev pub zone_end : ℕ → ℕ → Zone → ℕ
zone_end pool i z = zone_start pool i z + zone_size z

zone_fits : (z : Zone) → zone_offset z + zone_size z ≤ MemoryMap.virt_zone_space_length
zone_fits z = ground arith

zones_apart :
    (i : ℕ) (z y : Zone)
    → Owns i z
    → Owns i y
    → z ≢ y
    → (zone_offset z + zone_size z ≤ zone_offset y) ⊎ (zone_offset y + zone_size y ≤ zone_offset z)
zones_apart i z y oz oy ne = ground arith

-- With `n` threads, a zone of a thread lies inside the `n` slices from `pool` on, and two
-- different zones, of one thread or of two, share no address.
pub zones_disjoint :
    (pool n i j : ℕ) (z y : Zone)
    → i < n
    → j < n
    → Owns i z
    → Owns j y
    → (i ≢ j) ⊎ (z ≢ y)
    → (pool ≤ zone_start pool i z)
      × (zone_end pool i z ≤ pool + n * MemoryMap.virt_zone_space_length)
      × ((zone_end pool i z ≤ zone_start pool j y) ⊎ (zone_end pool j y ≤ zone_start pool i z))
zones_disjoint pool n i j z y hi hj oz oy ne = (
  omega arith,
  omega (arith, zone_fits z),
  elim (ℕ_discrete i j) [
    | yes e ↦ rw (← e) (omega (arith, zones_apart i z y oz (rw e oy) (different e ne)))
    | no d ↦ omega (arith, zone_fits z, zone_fits y)
  ],
)
  where
    different : i ≡ j → (i ≢ j) ⊎ (z ≢ y) → z ≢ y
    different e (inl d) = absurd (d e)
    different e (inr d) = d
