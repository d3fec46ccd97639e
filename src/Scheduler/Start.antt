-- ===== src/Scheduler/Start.antt =====
-- The first batch after ThreadContext_Initialize (Engine/src/delta/core/ThreadContext.cpp).
use mathlib.Core.List.{Perm, Mem}
use project_delta.Prelude.{
  ℕ, ◌+◌, ◌*◌, ◌^◌, ◌≤◌, ◌<◌, ◌≡◌, ◌∙◌, ap, refl, arith, List, [], ◌++◌, length, none, some, true,
  false,
}
use project_delta.Build.{Build, returns}
use project_delta.EngineTypes.{ThreadArena, Job, TaskQueue, main, worker}
use project_delta.TaskQueue.{Store}
use project_delta.ThreadContext.{Globals, generic, is_main_thread}
use project_delta.ThreadContext.Finish.{IsFreshQueue}
use project_delta.ThreadContext.Ready.{IsReady}
use project_delta.Scheduler.{State}
use project_delta.Scheduler.Crew.{AllHold}
use project_delta.Scheduler.Held.{Holds}
use project_delta.Scheduler.Once.{run_batch, run_batch_once}
use project_delta.Scheduler.Steal.{IsCallable}

-- A queue as InitializeQueue leaves it holds nothing, and its first 512 places are clear.
pub fresh-Holds :
    {base : ℕ} {q : TaskQueue}
    → IsFreshQueue base q
    → base + 2 ^ 35 ≤ 2 ^ 64
    → (s : Store) → Holds 12 512 base 0 q s []
fresh-Holds h small s = record {
  t = 0;
  n = 0;
  is = record {
    ring = record {
      few = omega arith;
      size_is = h.size;
      mask_is = h.mask;
      tasks_end = omega (arith, h.tasks, small);
      payloads_end = omega (arith, h.payloads, small);
    };
    top_is = h.top;
    bottom_is = h.bottom;
    small = omega arith;
  };
  content = refl;
  end_le = omega arith;
  clear = λ i j ih jh. omega (arith, h.tasks, h.payloads, ih, jh);
  tasks_in = omega (arith, h.tasks);
  payloads_in = omega (arith, h.payloads);
}

module _ {page_size n start array : ℕ} {g : Globals} (r : IsReady page_size n start array g)
    (small : start + array + (n + 1) * 2 ^ 35 ≤ 2 ^ 64) (store : Store) (signals : List ℕ) where
  abbrev pub started : State
  started = record { globals = g; store = store; signals = signals }

  pub ready-AllHold : AllHold 12 512 (start + array) n 0 started (λ i. [])
  ready-AllHold = record {
    holds = λ i lo hi. fresh-Holds (r.worker_at i lo hi).queue (omega (arith, small, hi)) store;
    workers = r.worker_count;
  }

  pub ready-main_thread : is_main_thread g ≡ true
  unfolding is_main_thread generic
  ready-main_thread =
      ap
        (λ c. elim c [
          | none ↦ false
          | some i ↦ elim (generic g.contexts i).type [ main ↦ true | worker ↦ false ]
        ])
        r.current
      ∙ ap (λ t. elim t [ main ↦ true | worker ↦ false ]) r.main_at.type_is

  -- With at least one worker, as soon as ThreadContext_Initialize has returned: a batch of up to 512
  -- jobs, none of which is null or fails the assertion on it, and a Scheduler_Sync return with every
  -- job called exactly once, in some order, and with the main thread's transient arena empty.
  run_batch_started :
      (effect : Job → ThreadArena → ThreadArena) (build : Build) (js : List Job)
      → 0 < n
      → n + 1 < 2 ^ 32
      → length js ≤ 512
      → ((x : Job) → Mem x js → IsCallable build x)
      → (s : State) × (called : List Job) × (run_batch effect build
            ((n + 2) * (length js + 1))
            js
            (record { globals = g; store = store; signals = signals })
          ≡ returns (some s))
        × (s.store.calls ≡ store.calls ++ called)
        × Perm called js
        × (s.globals.contexts.main_context.generic.transient_arena.offset ≡ 0)
  run_batch_started effect build js any few short good =
      let (s, called, e, calls, p, _, cursor, _) =
        run_batch_once effect build 12 512 (start + array) n 0 js started any few ready-AllHold
          ready-main_thread r.current r.main_at.index r.thread_count (omega (arith, short))
          (omega (arith, short)) (omega arith) good in
      (s, called, e, calls, p, cursor ∙ ap (λ a. a.offset) r.main_at.place.arena)
