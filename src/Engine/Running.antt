-- ===== src/Engine/Running.antt =====
-- The whole of Engine::Initialize (Engine/src/delta/core/engine.cpp): the platform, the memory plan, the
-- contexts and the workers.
use mathlib.Core.Path.{subst}
use project_delta.Prelude.{
  ℕ, ◌+◌, ◌*◌, ◌^◌, ◌≤◌, ◌<◌, ◌≡◌, ◌∙◌, refl, sym, ap, arith, ◌==◌, true, false, List,
}
use project_delta.Build.{Build}
use project_delta.Build.Ran.{ran, undefined}
use project_delta.EngineTypes.{WorkerExecutionContext}
use project_delta.MemoryConfig.{plan}
use project_delta.ThreadContext.{Contexts, Globals, aligned_context_array_size}
use project_delta.ThreadContext.Ready.{IsReady}
use project_delta.ThreadContext.Finish.{IsWorkerAt}
use project_delta.Engine.Session.{Session, engine_initialize}
use project_delta.Engine.Started.{IsAble, IsWorkerAt-with_handle, main_placed}
use project_delta.Win32.{Win32, CoreInfo}
use project_delta.Win32.Cores.{IsLaid, cores}
use project_delta.Win32.Start.{buffer_of, answer_of}
use project_delta.Win32.Layer.{IsServing}
use project_delta.Win32.Threads.{Process}
use project_delta.Worker.Init.{Workers}
use project_delta.Worker.Room.{HasArenas}
use project_delta.Worker.Listed.{IsListed}
use project_delta.Worker.Placed.{IsManned}
use project_delta.Worker.Many.{worker_init_cases}
use project_delta.Engine.Reached.{slices, reaches}

-- The engine with `n` workers: each has a thread and an empty queue in its own slice, the main thread has
-- room in its arenas, the contexts lie at the start of the slab, and `s_Threads` is filled.
pub record IsRunning (sys : Win32) (build : Build) (h : IsServing sys) (worker_proc n : ℕ)
    (s : Session sys build h) : Type 0 where
  pub running : s.is_running ≡ true
  pub planned : (ram : ℕ) × (s.config ≡ plan ram 4096 (n + 1))
  pub thread_count : s.workers.globals.thread_count ≡ n + 1
  pub worker_count : s.workers.globals.worker_count ≡ n
  pub threads_counted : s.workers.s_worker_count ≡ n
  pub slab_end : s.workers.globals.master_slab_end ≡ slices n s.workers.globals + (n + 1) * 2 ^ 35
  pub manned :
      IsManned
        (λ j c. IsWorkerAt 4096 (slices n s.workers.globals + j * 2 ^ 35) j c)
        n
        n
        s.workers.globals
  pub low : slices n s.workers.globals + (n + 1) * 2 ^ 35 ≤ 2 ^ 47
  pub contexts_at : s.workers.globals.thread_contexts ≡ s.workers.globals.master_slab_start
  pub listed : (cs : ℕ) × IsListed sys worker_proc n n cs s.workers
  pub room : HasArenas (2 ^ 22) (2 ^ 22) s.workers.globals

-- The session from what ThreadContext_Initialize has left in `s` and Worker_Init, which keeps the globals
-- but for the contexts, in `s2`.
started-IsRunning :
    (sys : Win32) (build : Build) (h : IsServing sys) (worker_proc n ram : ℕ) (s s2 : Workers sys)
    → IsReady 4096 n s.globals.master_slab_start (aligned_context_array_size (n + 1) 4096) s.globals
    → slices n s.globals + (n + 1) * 2 ^ 35 ≤ 2 ^ 47
    → s.globals.thread_contexts ≡ s.globals.master_slab_start
    → s2.globals ≡ record s.globals { contexts = s2.globals.contexts }
    → s2.s_worker_count ≡ n
    → IsManned (λ j c. IsWorkerAt 4096 (slices n s.globals + j * 2 ^ 35) j c) n n s2.globals
    → (cs : ℕ) × IsListed sys worker_proc n n cs s2
    → HasArenas (2 ^ 22) (2 ^ 22) s2.globals
    → IsRunning sys build h worker_proc n
        (record { is_running = true; config = plan ram 4096 (n + 1); workers = s2 })
started-IsRunning sys build h worker_proc n ram s s2 ready low contexts_at same counted manned
      listed room =
    let array = aligned_context_array_size (n + 1) 4096 in
    let start = s.globals.master_slab_start in
    let slab : s2.globals.master_slab_start ≡ start = ap (λ g. g.master_slab_start) same in
    record {
      running = refl;
      planned = (ram, refl);
      thread_count = ap (λ g. g.thread_count) same ∙ ready.thread_count;
      worker_count = ap (λ g. g.worker_count) same ∙ ready.worker_count;
      threads_counted = counted;
      slab_end =
          ap (λ g. g.master_slab_end) same
          ∙ ready.slab_end
          ∙ ap (λ start. start + array + (n + 1) * 2 ^ 35) (sym slab);
      manned =
          subst
            (λ start.
              IsManned (λ j c. IsWorkerAt 4096 (start + array + j * 2 ^ 35) j c) n n s2.globals)
            (sym slab) manned;
      low = omega (arith, low, slab);
      contexts_at = ap (λ g. g.thread_contexts) same ∙ contexts_at ∙ sym slab;
      listed = listed;
      room = room;
    }

module _ (sys : Win32) (build : Build) (h : IsServing sys) (worker_proc count_offset : ℕ)
    (memory : Contexts) (n : ℕ) (few : n < 1023) (able : IsAble sys 4096 (n + 1)) where
  -- On a machine with `n + 1` cores whose records lie one behind another, pages of 4096 bytes, and a system
  -- that gives the memory, the threads and the time that it is asked for, Engine::Initialize returns
  -- with `n` workers in every build if there are less than 32: each has a thread and an empty queue in
  -- its own slice, the address of its handle is in the array s_Threads, the main thread has room in its
  -- arenas, and the contexts lie at the start of the slab. With 32 workers and more, up to 1022, its
  -- behaviour is undefined.
  pub engine_initialize_cases :
      (p : Process sys) (records : List CoreInfo)
      → ((buffer_of sys p.world).0 == 0) ≡ false
      → (answer_of sys p.world).0 ≡ true
      → IsLaid (answer_of sys p.world).2 (answer_of sys p.world).1 0 records
      → cores records ≡ n + 1
      → (sys.get_system_info p.world).0.page_size ≡ 4096
      → (n < 32
          → (s : Session sys build h) × (engine_initialize sys build h worker_proc count_offset
                memory p
              ≡ ran s)
            × IsRunning sys build h worker_proc n s)
        × (32 ≤ n → engine_initialize sys build h worker_proc count_offset memory p ≡ undefined)
  engine_initialize_cases p records given got lies count page =
      let (s, ram, started, ready, room, low, contexts_at) =
        reaches sys build h worker_proc count_offset memory n few able p records given got lies
          count page in
      let array = aligned_context_array_size (n + 1) 4096 in
      let start = s.globals.master_slab_start in
      let P : ℕ → WorkerExecutionContext → Type 0 =
        λ j c. IsWorkerAt 4096 (start + array + j * 2 ^ 35) j c in
      let stays = λ (j x : ℕ) (c : WorkerExecutionContext).
        IsWorkerAt-with_handle 4096 (start + array + j * 2 ^ 35) j x c in
      let (s1, placed, room1, same, workers, scratch_same) =
        main_placed sys build h worker_proc count_offset memory P stays n able (n + (n + 2 ^ 22))
          (2 * n + 2 ^ 22) s (omega (arith, few)) room in
      let cases =
        worker_init_cases sys build h able.creates worker_proc P n stays (2 ^ 22) (2 ^ 22) s1 room1
          (λ j lo hi. subst (λ w. P j (w j)) (sym workers) (ready.worker_at j lo hi))
          (ap (λ a. a.offset) (scratch_same ∙ ready.main_at.place.arena)) in
      (
        λ small.
            let (s2, e, counted, globals, room2, manned, cs, listed) = cases.0 small in
            (
              record { is_running = true; config = plan ram 4096 (n + 1); workers = s2 },
              rw (started, placed, e) refl,
              started-IsRunning sys build h worker_proc n ram s s2 ready low contexts_at
                  (globals
                    ∙ ap {A = Globals} (λ g. record g { contexts = s2.globals.contexts }) same)
                  counted manned (cs, listed) room2,
            ),
        λ many. let e = cases.1 many in rw (started, placed, e) refl,
      )
