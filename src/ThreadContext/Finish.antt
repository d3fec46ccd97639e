-- ===== src/ThreadContext/Finish.antt =====
-- ThreadContext_Initialize (Engine/src/delta/core/ThreadContext.cpp): what the second half
-- writes into the contexts of the main thread and of the workers.
use project_delta.Prelude.{
  ℕ, zero, suc, ◌+◌, ◌*◌, ◌/◌, ◌^◌, ◌<◌, ◌≡◌, ◌≢◌, ◌∙◌, refl, ap, arith, ◌==◌, not, true, false,
}
use project_delta.Prelude.Int.{pos, ◌-ℤ◌}
use project_delta.Word.{add64}
use project_delta.Build.{assert-true, Build, returns}
use project_delta.Pal.{Pal}
use project_delta.EngineTypes.{
  ThreadPageCoordinator, TaskQueue, GenericExecutionContext, MainExecutionContext,
  WorkerExecutionContext, main, worker,
}
use project_delta.MemoryMap.Main
use project_delta.MemoryMap.Worker
use project_delta.TaskQueue.{initialize_queue, field_size, signed64, bits64}
use project_delta.ThreadContext.Place.{IsPlaced, fresh_arena, arena-eq, ahead, behind}
use project_delta.ThreadContext.{
  Contexts, generic, set_worker, page_coordinator, finish_main, finish_worker, finish_workers,
}

-- The main thread's context, with its second arena behind the first.
pub record IsMainAt (page_size base : ℕ) (c : MainExecutionContext) : Type 0 where
  pub place : IsPlaced page_size base c.generic
  pub type_is : c.generic.type ≡ main
  pub index : c.generic.thread_ix ≡ 0
  pub storage :
      c.persistent_storage
      ≡ fresh_arena
          (base + Main.virt_zone_ps_offset)
          Main.virt_zone_ps_baseline
          Main.virt_zone_ps_size
  pub no_tasks : c.dep_counter.count ≡ 0

-- An empty queue of 4096 places at its zone of the slice, as InitializeQueue leaves it.
pub record IsFreshQueue (base : ℕ) (q : TaskQueue) : Type 0 where
  pub top : q.top ≡ pos 0
  pub bottom : q.bottom ≡ pos 0
  pub size : q.size ≡ pos 4096
  pub mask : q.mask ≡ pos 4095
  pub tasks : q.tasks ≡ base + Worker.virt_zone_queue_offset
  pub payloads : q.payloads ≡ base + Worker.virt_zone_queue_offset + 4096

-- The context of worker `i`: its queue is empty and starts behind its transient arena.
pub record IsWorkerAt (page_size base i : ℕ) (c : WorkerExecutionContext) : Type 0 where
  pub place : IsPlaced page_size base c.generic
  pub type_is : c.generic.type ≡ worker
  pub index : c.generic.thread_ix ≡ i
  pub queue : IsFreshQueue base c.task_queue
  pub awake : c.is_asleep ≡ false
  pub not_closing : c.should_close ≡ false

at-base :
    {page_size base : ℕ} {g : GenericExecutionContext}
    → IsPlaced page_size base g
    → g.page_coordinator.virtual_address_base ≡ base
unfolding page_coordinator
at-base p = ap (λ c. c.virtual_address_base) p.coordinator

set_worker_self :
    (cs : Contexts) (i : ℕ) (c : WorkerExecutionContext) → (set_worker cs i c).worker_context i ≡ c
unfolding set_worker
set_worker_self cs i c = ground arith

set_worker_ne :
    (cs : Contexts) (i j : ℕ) (c : WorkerExecutionContext)
    → j ≢ i
    → (set_worker cs i c).worker_context j ≡ cs.worker_context j
unfolding set_worker
set_worker_ne cs i j c h = ground (arith, h)

module _ (pal : Pal) (build : Build)
    (commits : (w : pal.World) (p n : ℕ) → 0 < (pal.memory_commit w p n).0) (page_size : ℕ) where
  pub finished_main :
      (base : ℕ) (cs : Contexts) (w : pal.World)
      → IsPlaced page_size base (generic cs 0)
      → base + 2 ^ 35 < 2 ^ 64
      → (cs' : Contexts) × (w' : pal.World) × (finish_main pal build cs w ≡ returns (cs', w'))
        × IsMainAt page_size base cs'.main_context
        × (cs'.worker_context ≡ cs.worker_context)
  unfolding finish_main generic
  finished_main base cs w p small =
      let c = cs.main_context.generic.page_coordinator in
      let storage =
        fresh_arena (base + Main.virt_zone_ps_offset) Main.virt_zone_ps_baseline
          Main.virt_zone_ps_size in
      let (w', e) =
        arena-eq pal build commits page_size c Main.virt_zone_ps_offset Main.virt_zone_ps_baseline
          Main.virt_zone_ps_size (base + Main.virt_zone_ps_offset)
          (pal.thread_get_current_handle w).1 (omega (arith, at-base p)) (omega (arith, small)) in
      let cs' : Contexts = record cs {
        main_context = record {
          generic = record cs.main_context.generic {
            type = main;
            thread_ix = 0;
            thread_handle = (pal.thread_get_current_handle w).0;
          };
          persistent_storage = storage;
          dep_counter = record { count = 0 };
        };
      } in
      (
        cs',
        w',
        rw e refl,
        record {
          place = record { coordinator = p.coordinator; arena = p.arena };
          type_is = refl;
          index = refl;
          storage = refl;
          no_tasks = refl;
        },
        refl,
      )

  queue-eq :
      (c : ThreadPageCoordinator) (old : TaskQueue) (d base : ℕ) (w : pal.World)
      → c.virtual_address_base ≡ base
      → base + 2 ^ 35 < 2 ^ 64
      → (q : TaskQueue) × (w' : pal.World) × (initialize_queue pal build c old d
            Worker.virt_zone_queue_offset Worker.virt_zone_queue_size w
          ≡ returns (record { queue = q; world = w' }))
        × IsFreshQueue base q
  unfolding initialize_queue ◌-ℤ◌
  queue-eq c old d base w at small =
      let target = add64 c.virtual_address_base Worker.virt_zone_queue_offset in
      let p = pal.memory_commit w target Worker.virt_zone_queue_size in
      let good : not (p.0 == 0) ≡ true =
        ground (arith, commits w target Worker.virt_zone_queue_size) in
      let size = Worker.virt_zone_queue_size / field_size in
      let q : TaskQueue = record old {
        top = pos 0;
        bottom = pos 0;
        size = signed64 size;
        mask = signed64 size -ℤ pos 1;
        tasks = target;
        payloads = add64 target (bits64 (signed64 size));
      } in
      (
        q,
        p.1,
        rw (assert-true build (not (p.0 == 0)) good) refl,
        record {
          top = refl;
          bottom = refl;
          size = refl;
          mask = refl;
          tasks = omega (arith, at, small);
          payloads = omega (arith, at, small);
        },
      )

  finished_worker :
      (d base i : ℕ) (cs : Contexts) (w : pal.World)
      → IsPlaced page_size base (cs.worker_context i).generic
      → base + 2 ^ 35 < 2 ^ 64
      → (cs' : Contexts) × (w' : pal.World) × (finish_worker pal build d i cs w ≡ returns (cs', w'))
        × IsWorkerAt page_size base i (cs'.worker_context i)
        × ((j : ℕ) → j ≢ i → cs'.worker_context j ≡ cs.worker_context j)
        × (cs'.main_context ≡ cs.main_context)
  unfolding finish_worker set_worker
  finished_worker d base i cs w p small =
      let old = cs.worker_context i in
      let r = pal.sync_create_semaphore w in
      let (q, w', e, fresh) =
        queue-eq old.generic.page_coordinator old.task_queue d base r.1 (at-base p) small in
      let c : WorkerExecutionContext = record {
        generic = record old.generic { type = worker; thread_ix = i; thread_handle = 0 };
        task_queue = q;
        sleep_semaphore = r.0;
        is_asleep = false;
        should_close = false;
      } in
      let is : IsWorkerAt page_size base i c = record {
        place = record { coordinator = p.coordinator; arena = p.arena };
        type_is = refl;
        index = refl;
        queue = fresh;
        awake = refl;
        not_closing = refl;
      } in
      (
        set_worker cs i c,
        w',
        rw e refl,
        rw (set_worker_self cs i c) is,
        λ j h. set_worker_ne cs i j c h,
        refl,
      )

  pub finished_workers :
      (n d i base : ℕ) (cs : Contexts) (w : pal.World)
      → ((j : ℕ)
          → j < n
          → IsPlaced page_size (base + j * 2 ^ 35) (cs.worker_context (i + j)).generic)
      → base + n * 2 ^ 35 < 2 ^ 64
      → (cs' : Contexts) × (w' : pal.World) × (finish_workers pal build n d i cs w
          ≡ returns (cs', w'))
        × ((j : ℕ)
            → j < n
            → IsWorkerAt page_size (base + j * 2 ^ 35) (i + j) (cs'.worker_context (i + j)))
        × ((j : ℕ) → j < i → cs'.worker_context j ≡ cs.worker_context j)
        × (cs'.main_context ≡ cs.main_context)
  unfolding finish_workers
  finished_workers zero d i base cs w p small =
      (cs, w, refl, λ j h. absurd (omega (arith, h)), λ j h. refl, refl)
  finished_workers (suc n) d i base cs w p small =
      let next = base + 2 ^ 35 in
      let (p0, ps) =
        behind (λ x k. IsPlaced page_size x (cs.worker_context k).generic) n i base next refl p in
      let (cs1, w1, e1, is, others, m1) = finished_worker d base i cs w p0 (omega (arith, small)) in
      let ps1 : (j : ℕ)
          → j < n
          → IsPlaced page_size (next + j * 2 ^ 35) (cs1.worker_context (suc i + j)).generic =
        λ j h. rw (others (suc i + j) (omega arith)) (ps j h) in
      let (cs2, w2, e2, later, before, m2) =
        finished_workers n d (suc i) next cs1 w1 ps1 (omega (arith, small)) in
      (
        cs2,
        w2,
        rw e1 e2,
        ahead (λ x k. IsWorkerAt page_size x k (cs2.worker_context k)) n i base next refl
            (rw (before i (omega arith)) is) later,
        λ j h. before j (omega (arith, h)) ∙ others j (omega (arith, h)),
        m2 ∙ m1,
      )
