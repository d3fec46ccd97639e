-- ===== src/Engine/Reached.antt =====
-- Engine::Initialize (Engine/src/delta/core/engine.cpp) up to the start of the threads: the platform, the
-- memory plan and the contexts.
use mathlib.Core.Path.{subst}
use project_delta.Prelude.{
  ℕ, ◌+◌, ◌*◌, ◌^◌, ◌≤◌, ◌<◌, ◌≡◌, ◌∙◌, refl, sym, arith, leb, ◌==◌, not, true, false, List,
}
use project_delta.Build.{Build, returns, assert-true}
use project_delta.Build.Ran.{ran, ◌>>=◌}
use project_delta.Pal.{Pal}
use project_delta.MemoryConfig.{plan, Initialized, memory_config_initialize}
use project_delta.ThreadContext.{
  Contexts, Globals, aligned_context_array_size, master_pool_size, thread_context_initialize,
}
use project_delta.ThreadContext.Ready.{
  IsReady, thread_context_initialize-IsReady, aligned_context_array_size-IsRoundedUp,
}
use project_delta.Engine.Session.{start_threads, engine_initialize}
use project_delta.Engine.Started.{IsAble, IsReady-HasArenas}
use project_delta.Win32.{Win32, CoreInfo}
use project_delta.Win32.Cores.{IsLaid, cores}
use project_delta.Win32.Start.{buffer_of, answer_of, initialize-cores}
use project_delta.Win32.Memory.{
  memory_reserve, memory_commit, mem_reserve, mem_commit, page_noaccess, page_readwrite,
  get_memory_status,
}
use project_delta.Win32.Layer.{IsServing, layer}
use project_delta.Win32.Threads.{Process}
use project_delta.Worker.Init.{Workers}
use project_delta.Worker.Room.{HasArenas}

-- Where the contexts' slices begin: behind the array of contexts.
abbrev pub slices : ℕ → Globals → ℕ
slices n g = g.master_slab_start + aligned_context_array_size (n + 1) 4096

planned_returns :
    (pal : Pal) (build : Build) (ram page_size threads : ℕ) (w : pal.World)
    → (let c = plan ram page_size threads in leb c.active_lock_allocation c.global_pool_size ≡ true)
    → (r : Initialized pal) × (memory_config_initialize pal build ram page_size threads w
        ≡ returns r)
      × (r.config ≡ plan ram page_size threads)
unfolding memory_config_initialize
planned_returns pal build ram page_size threads w fits =
    let c = plan ram page_size threads in
    let elevated = pal.memory_elevate_lock_limit w c.active_lock_allocation in
    (
      record { config = c; warned = not elevated.0; world = elevated.1 },
      rw (assert-true build (leb c.active_lock_allocation c.global_pool_size) fits) refl,
      refl,
    )

module _ (sys : Win32) (build : Build) (h : IsServing sys) (worker_proc count_offset : ℕ)
    (memory : Contexts) (n : ℕ) (few : n < 1023) (able : IsAble sys 4096 (n + 1)) where
  -- ThreadContext_Initialize over the Win32 layer.
  contexts-IsReady :
      (p : Process sys)
      → (g : Globals) × (p' : Process sys) × (thread_context_initialize
            (layer sys build h)
            build
            (n + 1)
            4096
            count_offset
            memory
            p
          ≡ returns (g, p'))
        × IsReady 4096 n g.master_slab_start (aligned_context_array_size (n + 1) 4096) g
        × HasArenas (1 + (n + (n + 2 ^ 22))) (2 * n + 2 ^ 22) g
        × (slices n g + (n + 1) * 2 ^ 35 ≤ 2 ^ 47)
        × (g.thread_contexts ≡ g.master_slab_start)
  unfolding memory_reserve memory_commit master_pool_size
  contexts-IsReady p =
      let pool = master_pool_size (n + 1) 4096 in
      let array = aligned_context_array_size (n + 1) 4096 in
      let start = (sys.virtual_alloc p.world 0 pool mem_reserve page_noaccess).0 in
      let r = aligned_context_array_size-IsRoundedUp 12 n (omega arith) (omega (arith, few)) in
      let size : pool ≡ array + (n + 1) * 2 ^ 35 = omega (arith, few, r.least) in
      let low = able.reserves p.world pool (omega (arith, size, few, r.least)) in
      let positive = able.commits p.world 0 pool mem_reserve page_noaccess in
      let (g, p', e, ready, committed) =
        thread_context_initialize-IsReady (layer sys build h) build
          (λ p mem size. able.commits p.world mem size mem_commit page_readwrite) 12 n p
          (omega arith) (omega (arith, few)) positive (omega (arith, low)) count_offset memory in
      (
        g,
        p',
        e,
        subst (λ start. IsReady 4096 n start array g) (sym ready.slab_start) ready,
        IsReady-HasArenas 4096 n start array (1 + (n + (n + 2 ^ 22))) (2 * n + 2 ^ 22) g ready
            positive (omega (arith, able.aligns p.world pool, r.multiple))
            (omega (arith, low, size)) (omega (arith, few)) (omega (arith, few)),
        omega (arith, low, size, ready.slab_start),
        committed
            ∙ able.keeps (sys.virtual_alloc p.world 0 pool mem_reserve page_noaccess).1 start array
                positive (omega (arith, able.aligns p.world pool))
            ∙ sym ready.slab_start,
      )

  -- Up to the start of the threads.
  pub reaches :
      (p : Process sys) (records : List CoreInfo)
      → ((buffer_of sys p.world).0 == 0) ≡ false
      → (answer_of sys p.world).0 ≡ true
      → IsLaid (answer_of sys p.world).2 (answer_of sys p.world).1 0 records
      → cores records ≡ n + 1
      → (sys.get_system_info p.world).0.page_size ≡ 4096
      → (s : Workers sys) × (ram : ℕ) × (engine_initialize sys build h worker_proc count_offset
            memory p
          ≡ (start_threads sys build h worker_proc count_offset memory (n + 1) s >>= λ s.
              ran (record { is_running = true; config = plan ram 4096 (n + 1); workers = s })))
        × IsReady 4096 n s.globals.master_slab_start
            (aligned_context_array_size (n + 1) 4096)
            s.globals
        × HasArenas (1 + (n + (n + 2 ^ 22))) (2 * n + 2 ^ 22) s.globals
        × (slices n s.globals + (n + 1) * 2 ^ 35 ≤ 2 ^ 47)
        × (s.globals.thread_contexts ≡ s.globals.master_slab_start)
  unfolding engine_initialize
  reaches p records given got lies count page =
      let (info, w1, started, cores_are, _, _, page_is) =
        initialize-cores sys p.world records given got lies in
      let threads : info.cpu_physical_core_count ≡ n + 1 = omega (arith, cores_are, count, few) in
      let status = get_memory_status sys w1 in
      let ram = status.0.physical_installed in
      let (c, planned, config) =
        planned_returns (layer sys build h) build ram 4096 (n + 1) (record p { world = status.1 })
          (able.enough w1) in
      let (g, p', e, ready, room, low, at) = contexts-IsReady c.world in
      (
        record { process = p'; globals = g; s_worker_count = 0; s_threads = 0 },
        ram,
        rw (started, threads, page_is ∙ page, planned, e, config) refl,
        ready,
        room,
        low,
        at,
      )
