-- ===== src/Engine/Calm.antt =====
-- What a request for transient memory and an Engine::Update (Engine/src/delta/core/engine.cpp) leave of a
-- running engine.
use mathlib.Core.Path.{subst}
use project_delta.Prelude.{ℕ, ◌+◌, ◌*◌, ◌^◌, ◌≡◌, ◌≢◌, ◌∙◌, sym, ap, arith, ◌==◌}
use project_delta.Build.{Build}
use project_delta.EngineTypes.{WorkerExecutionContext}
use project_delta.ThreadContext.{thread_context_get_for_index}
use project_delta.ThreadContext.Finish.{IsWorkerAt}
use project_delta.Engine.Session.{Session}
use project_delta.Engine.Reached.{slices}
use project_delta.Engine.Running.{IsRunning}
use project_delta.Win32.{Win32}
use project_delta.Win32.Layer.{IsServing}
use project_delta.Worker.Listed.{IsListed}
use project_delta.Worker.Placed.{IsManned}
use project_delta.Worker.Room.{HasArenas, scratch_of, next_of}

module _ (sys : Win32) (build : Build) (h : IsServing sys) (worker_proc n : ℕ) where
  -- What a frame leaves of a session as it was.
  pub record IsCalm (s s' : Session sys build h) : Type 0 where
    pub running : s'.is_running ≡ s.is_running
    pub config : s'.config ≡ s.config
    pub globals :
        s'.workers.globals ≡ record s.workers.globals { contexts = s'.workers.globals.contexts }
    pub workers :
        s'.workers.globals.contexts.worker_context ≡ s.workers.globals.contexts.worker_context
    pub count : s'.workers.s_worker_count ≡ s.workers.s_worker_count
    pub threads : s'.workers.s_threads ≡ s.workers.s_threads
    pub first :
        (scratch_of s'.workers.globals).backing_memory
        ≡ (scratch_of s.workers.globals).backing_memory
    pub next : next_of s'.workers.globals ≡ next_of s.workers.globals
    pub word : s'.workers.process.word ≡ s.workers.process.word

  pub calm-IsListed :
      (cs : ℕ) (s s' : Session sys build h)
      → IsCalm s s'
      → IsListed sys worker_proc n n cs s.workers
      → IsListed sys worker_proc n n cs s'.workers
  unfolding thread_context_get_for_index
  calm-IsListed cs s s' c l =
      let t = s.workers.s_threads in
      record {
        next = omega (arith, c.next, l.next, c.threads);
        first = c.first ∙ l.first;
        made = ap (λ t. t == 0) c.threads ∙ l.made;
        handle_of = λ j lt.
            ap (λ w. (w (j + 1)).generic.thread_handle) c.workers
            ∙ l.handle_of j lt
            ∙ omega (arith, c.threads);
        proc_at = λ j lt. ap (λ w. w (cs + 16 * j)) c.word ∙ l.proc_at j lt;
        args_at = λ j lt.
            ap (λ w. w (cs + 16 * j + 8)) c.word
            ∙ l.args_at j lt
            ∙ ap (λ g. thread_context_get_for_index g (j + 1)) (sym c.globals);
        apart = omega (arith, l.apart, c.threads);
        listed = λ j lt. omega (
          arith,
          ap (λ t. s'.workers.process.word (t + 8 * j)) c.threads,
          ap (λ w. w (t + 8 * j)) c.word,
          l.listed j lt,
          c.threads,
        );
        handle_at = λ j lt null. l.handle_at j lt (
            sym (ap (λ w. w (t + 8 * n + 8 * j)) c.word)
            ∙ ap (λ t. s'.workers.process.word (t + 8 * n + 8 * j)) (sym c.threads)
            ∙ null);
      }

  pub calm-IsRunning :
      (s s' : Session sys build h)
      → IsCalm s s'
      → HasArenas (2 ^ 22) (2 ^ 22) s'.workers.globals
      → IsRunning sys build h worker_proc n s
      → IsRunning sys build h worker_proc n s'
  calm-IsRunning s s' c room r =
      let slab = ap (λ g. g.master_slab_start) c.globals in
      let P : ℕ → ℕ → WorkerExecutionContext → Type 0 =
        λ x j c. IsWorkerAt 4096 (x + j * 2 ^ 35) j c in
      let base : slices n s.workers.globals ≡ slices n s'.workers.globals = omega (arith, slab) in
      record {
        running = c.running ∙ r.running;
        planned = (r.planned.0, c.config ∙ r.planned.1);
        thread_count = ap (λ g. g.thread_count) c.globals ∙ r.thread_count;
        worker_count = ap (λ g. g.worker_count) c.globals ∙ r.worker_count;
        threads_counted = c.count ∙ r.threads_counted;
        slab_end = omega (arith, ap (λ g. g.master_slab_end) c.globals, r.slab_end, base);
        manned =
            subst (λ x. IsManned (P x) n n s'.workers.globals) base
              (record {
                holds = λ j lo hi.
                    subst (λ w. P (slices n s.workers.globals) j (w j)) (sym c.workers)
                      (r.manned.holds j lo hi);
                handles = λ j lo hi.
                    subst (λ w. (w j).generic.thread_handle ≢ 0) (sym c.workers)
                      (r.manned.handles j lo hi);
              });
        low = omega (arith, r.low, base);
        contexts_at = ap (λ g. g.thread_contexts) c.globals ∙ r.contexts_at ∙ sym slab;
        listed = (r.listed.0, calm-IsListed r.listed.0 s s' c r.listed.1);
        room = room;
      }
