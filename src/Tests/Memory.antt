-- ===== src/Tests/Memory.antt =====
-- The memory plan, the zones and the arenas at concrete inputs.
use project_delta.Prelude.{
  ℕ, ◌+◌, ◌*◌, ◌^◌, ◌≤◌, ◌<◌, ◌↔◌, ◌≡◌, ◌≢◌, ◌⊎◌, refl, arith, inr, Bool, true, List, [], ◌∷◌,
}
use project_delta.Word.{align}
use project_delta.Word.Align.{IsRoundedUp}
use project_delta.Build.{debug, release, returns, aborted}
use project_delta.EngineTypes.{ThreadArena}
use project_delta.MemoryMap.Layout.{ta, queue, zone_start, zone_end, zones_disjoint}
use project_delta.MemoryConfig.{raw_lock_budget, plan, Initialized, memory_config_initialize}
use project_delta.MemoryConfig.Budget.{
  lock_budget, planned, plan-IsRoundedUp, memory_config_initialize-aborted_iff,
  memory_config_initialize_wraps,
}
use project_delta.Arena.{Allocated, thread_arena_allocate, total_space, space_in_pages}
use project_delta.Arena.Block.{Fits}
use project_delta.Arena.Linear.{
  Serves, thread_arena_allocate-Serves, thread_arena_allocate-aborted_iff,
}
use project_delta.Arena.Run.{Served, Request, allocate_all, IsLaidOut, allocate_all-IsLaidOut}
use project_delta.Arena.Slow.{slow_path_null_iff, allocate_uncommitted}
use project_delta.Tests.Platform.{counting}

zones_disjoint_example :
    (zone_end 65536 1 queue ≤ zone_start 65536 1 ta)
    ⊎ (zone_end 65536 1 ta ≤ zone_start 65536 1 queue)
zones_disjoint_example =
    (zones_disjoint 65536 4 1 1 queue ta (omega arith) (omega arith) (omega arith) tt
      (inr (λ e. cc))).2

-- Eight threads, pages of 4096 bytes.
plan-IsRoundedUp_example :
    IsRoundedUp (lock_budget 7) 4096 (plan (2 ^ 34) 4096 8).active_lock_allocation
plan-IsRoundedUp_example = plan-IsRoundedUp (2 ^ 34) 12 7 (omega arith) (omega arith)

memory_config_initialize-aborted_iff_example :
    (memory_config_initialize (counting true) debug (2 ^ 34) 4096 8 0 ≡ aborted)
    ↔ ((planned (2 ^ 34) 12 7).active_lock_allocation
        ≤ (planned (2 ^ 34) 12 7).max_allowed_physical)
      × ((planned (2 ^ 34) 12 7).max_allowed_physical
          < 2 * (planned (2 ^ 34) 12 7).active_lock_allocation)
memory_config_initialize-aborted_iff_example =
    memory_config_initialize-aborted_iff (counting true) 0 (2 ^ 34) 12 7 (omega arith) (omega arith)

-- One gigabyte is too little.
memory_config_initialize_wraps_example :
    (r : Initialized (counting true)) × (memory_config_initialize
        (counting true)
        debug
        (2 ^ 30)
        4096
        8
        0
      ≡ returns r)
    × (2 ^ 30 < r.config.global_pool_size)
    × (r.config.max_allowed_physical < r.config.active_lock_allocation)
unfolding plan align raw_lock_budget
memory_config_initialize_wraps_example =
    memory_config_initialize_wraps (counting true) 0 (2 ^ 30) 12 7 (omega arith) (omega arith)
      (omega arith) (omega arith) debug

-- An arena with 300 of its first 4096 bytes in use.
abbrev used : ThreadArena
used = record { backing_memory = 65536; capacity = 4096; offset = 300; max_capacity = 8192 }

used-Fits : Fits used 4000 4
used-Fits = record { shift = omega arith; room = omega arith; cursor = omega arith }

-- The block would start at 65840, the first multiple of 16 from the cursor on.
rounded : IsRoundedUp (65536 + 300) 16 65840
rounded = record { multiple = refl; above = omega arith; least = omega arith }

thread_arena_allocate-aborted_iff_example :
    (thread_arena_allocate (counting true) debug 4096 used 4000 16 0 ≡ aborted)
    ↔ (65536 + 8192 < 65840 + 4000)
thread_arena_allocate-aborted_iff_example =
    thread_arena_allocate-aborted_iff (counting true) used 4000 4 used-Fits 4096 0 65840 rounded

allocated : Allocated (counting true)
allocated = record { ptr = 65840; arena = record used { offset = 4304 }; world = 0 }

thread_arena_allocate-Serves_example : Serves used 4000 4 allocated
unfolding thread_arena_allocate allocated total_space align
thread_arena_allocate-Serves_example =
    thread_arena_allocate-Serves (counting true) used 4000 4 used-Fits 4096 0 refl

allocate_uncommitted_example :
    (r : Allocated (counting true)) × (thread_arena_allocate
        (counting true)
        release
        4096
        used
        4000
        16
        0
      ≡ returns r)
    × (r.world ≡ 0)
    × (r.arena.capacity ≡ 4096)
    × (65536 + r.arena.capacity < r.ptr + 4000)
unfolding total_space align
allocate_uncommitted_example =
    allocate_uncommitted (counting true) 4096 used 4000 4 0 release used-Fits (omega arith)
      (omega arith) (omega arith)

used-Fits_large : Fits used 5000 4
used-Fits_large = record { shift = omega arith; room = omega arith; cursor = omega arith }

slow_path_null_iff_example :
    (r : Allocated (counting true)) × (thread_arena_allocate
        (counting true)
        debug
        4096
        used
        5000
        16
        0
      ≡ returns r)
    × ((r.ptr ≡ 0) ↔ (◌≢◌ {A = ℕ} 69632 0 × (◌≡◌ {A = Bool} true true)))
unfolding total_space align
slow_path_null_iff_example =
    slow_path_null_iff (counting true) 4096 used 5000 4 0 used-Fits_large (omega arith)
      (omega arith) (omega arith)

abbrev requests : List Request
requests =
    record { size = 100; shift = 3 }
    ∷ record { size = 5000; shift = 4 }
    ∷ record { size = 8; shift = 6 }
    ∷ []

abbrev fresh : ThreadArena
fresh = record { backing_memory = 65536; capacity = 4096; offset = 0; max_capacity = 8192 }

-- The second request takes the slow path, which fails.
served : Served (counting true)
served = record {
  blocks =
      record { start = 65536; request = record { size = 100; shift = 3 } }
      ∷ record { start = 65664; request = record { size = 8; shift = 6 } }
      ∷ [];
  arena = record fresh { offset = 136 };
  world = 8192;
}

served_run : allocate_all (counting true) debug 4096 fresh requests 0 ≡ returns served
unfolding allocate_all thread_arena_allocate served total_space space_in_pages align
served_run = refl

allocate_all-IsLaidOut_example :
    IsLaidOut 65536 (65536 + served.arena.offset) served.blocks × (served.arena.offset ≤ 8192)
allocate_all-IsLaidOut_example =
    allocate_all-IsLaidOut (counting true) 4096 fresh requests 0 served (omega arith) (omega arith)
      served_run
