-- ===== src/Engine/Started.antt =====
-- Engine::Initialize (Engine/src/delta/core/engine.cpp) on a machine that gives what it is asked for.
use mathlib.Core.Path.{subst}
use project_delta.Prelude.{
  ℕ, ◌+◌, ◌*◌, ◌^◌, ◌%◌, ◌≤◌, ◌<◌, ◌≡◌, refl, sym, arith, leb, ◌==◌, true, false,
}
use project_delta.Word.{sub32}
use project_delta.Build.{Build}
use project_delta.EngineTypes.{WorkerExecutionContext}
use project_delta.MemoryMap
use project_delta.MemoryMap.Main
use project_delta.MemoryConfig.{plan}
use project_delta.Arena.Fast.{HasRoom}
use project_delta.ThreadContext.{Contexts, Globals}
use project_delta.ThreadContext.Place.{fresh_arena}
use project_delta.ThreadContext.Finish.{IsWorkerAt}
use project_delta.ThreadContext.Ready.{IsReady}
use project_delta.Engine.Session.{start_threads}
use project_delta.Win32.{Win32}
use project_delta.Win32.Memory.{
  mem_reserve, mem_commit, page_noaccess, page_readwrite, get_memory_status,
}
use project_delta.Win32.Layer.{IsServing, fill_handle}
use project_delta.Win32.Threads.{thread_get_current_handle}
use project_delta.Win32.Affinity.{assign_physical_core}
use project_delta.Worker.Init.{Workers, worker_init}
use project_delta.Worker.Room.{HasArenas, scratch_of, new-persistent}
use project_delta.Worker.Placed.{with_handle}

-- What the engine's start asks of Windows: threads, memory at user addresses in whole allocation units, a
-- commit of whole pages where it is asked for, and so much installed memory that the plan for these threads and pages holds.
pub record IsAble (sys : Win32) (page_size threads : ℕ) : Type 0 where
  pub current : (w : sys.World) → ((sys.get_current_thread w).0 == 0) ≡ false
  pub creates : (w : sys.World) (info : ℕ) → ((sys.create_thread w info).0 == 0) ≡ false
  pub commits :
      (w : sys.World) (p n type protect : ℕ) → 0 < (sys.virtual_alloc w p n type protect).0
  pub keeps :
      (w : sys.World) (p n : ℕ)
      → 0 < p
      → p % page_size ≡ 0
      → (sys.virtual_alloc w p n mem_commit page_readwrite).0 ≡ p
  pub aligns :
      (w : sys.World) (size : ℕ)
      → (sys.virtual_alloc w 0 size mem_reserve page_noaccess).0 % 2 ^ 16 ≡ 0
  pub reserves :
      (w : sys.World) (size : ℕ)
      → size ≤ 2 ^ 46
      → (sys.virtual_alloc w 0 size mem_reserve page_noaccess).0 + size ≤ 2 ^ 47
  pub enough :
      (w : sys.World)
      → let c = plan (get_memory_status sys w).0.physical_installed page_size threads in
        leb c.active_lock_allocation c.global_pool_size ≡ true

pub IsWorkerAt-with_handle :
    (page_size base i x : ℕ) (c : WorkerExecutionContext)
    → IsWorkerAt page_size base i c
    → IsWorkerAt page_size base i (with_handle c x)
IsWorkerAt-with_handle page_size base i x c h = record {
  place = record { coordinator = h.place.coordinator; arena = h.place.arena };
  type_is = h.type_is;
  index = h.index;
  queue = h.queue;
  awake = h.awake;
  not_closing = h.not_closing;
}

-- A new arena in whole words.
fresh-HasRoom :
    (start baseline max_capacity words : ℕ)
    → 0 < start
    → start % 8 ≡ 0
    → words * 8 ≤ baseline
    → baseline ≤ max_capacity
    → start + 2 * max_capacity + 8 ≤ 2 ^ 64
    → HasRoom (fresh_arena start baseline max_capacity) words
fresh-HasRoom start baseline max_capacity words somewhere at room zone small = record {
  somewhere = somewhere;
  base = at;
  at_word = omega (arith, at);
  room = omega (arith, room);
  zone = zone;
  small = small;
}

-- The arenas of the main thread after ThreadContext_Initialize.
pub IsReady-HasArenas :
    (page_size n start array words scratch : ℕ) (g : Globals)
    → IsReady page_size n start array g
    → 0 < start
    → (start + array) % 8 ≡ 0
    → start + array < 2 ^ 48
    → words ≤ 2 ^ 23
    → scratch ≤ 2 ^ 23
    → HasArenas words scratch g
IsReady-HasArenas page_size n start array words scratch g r positive at low few few' = record {
  on = r.current;
  type_is = r.main_at.type_is;
  index_is = r.main_at.index;
  storage =
      subst (λ a. HasRoom a words) (sym r.main_at.storage)
        (fresh-HasRoom (start + array + Main.virt_zone_ps_offset) Main.virt_zone_ps_baseline
          Main.virt_zone_ps_size words (omega (arith, positive)) (omega (arith, at))
          (omega (arith, few)) (omega arith) (omega (arith, low)));
  scratch_room =
      subst (λ a. HasRoom a scratch) (sym r.main_at.place.arena)
        (fresh-HasRoom (start + array) MemoryMap.virt_zone_ta_baseline MemoryMap.virt_zone_ta_size
          scratch (omega (arith, positive)) at (omega (arith, few')) (omega arith)
          (omega (arith, low)));
  apart =
      subst
        (λ a.
          a.backing_memory + a.max_capacity
          ≤ g.contexts.main_context.persistent_storage.backing_memory)
        (sym r.main_at.place.arena)
        (subst (λ a. start + array + MemoryMap.virt_zone_ta_size ≤ a.backing_memory)
          (sym r.main_at.storage) (omega arith));
}

module _ (sys : Win32) (build : Build) (h : IsServing sys) (worker_proc count_offset : ℕ)
    (memory : Contexts) (P : ℕ → WorkerExecutionContext → Type 0)
    (stays : (j x : ℕ) (c : WorkerExecutionContext) → P j c → P j (with_handle c x)) (n : ℕ)
    (able : IsAble sys 4096 (n + 1)) where
  -- The main thread's handle and core, before Worker_Init.
  pub main_placed :
      (words scratch : ℕ) (s : Workers sys)
      → n < 2 ^ 31
      → HasArenas (1 + words) scratch s.globals
      → (s' : Workers sys) × (start_threads sys build h worker_proc count_offset memory (n + 1) s
          ≡ worker_init sys build h worker_proc n s')
        × HasArenas words scratch s'.globals
        × (s'.globals ≡ record s.globals { contexts = s'.globals.contexts })
        × (s'.globals.contexts.worker_context ≡ s.globals.contexts.worker_context)
        × (scratch_of s'.globals ≡ scratch_of s.globals)
  unfolding start_threads thread_get_current_handle
  main_placed words scratch s small a =
      let (address, s1, made, given, a1, _, _, scratch_same, _, same) =
        new-persistent sys build h 1 words scratch s a in
      let (p, own, _, _) =
        fill_handle sys sys.get_current_thread address s1.process given
          (able.current s1.process.world) in
      let assigned = (assign_physical_core sys address 0 p (omega arith)).0 (omega arith) in
      let count : sub32 (n + 1) 1 ≡ n = omega (arith, small) in
      (
        record s1 {
          process = record p {
            world = sys.set_thread_affinity_mask p.world (p.word address) (4 ^ 0);
          };
        },
        rw (made, own, given, assigned, count) refl,
        a1,
        same.globals,
        same.workers,
        scratch_same,
      )
