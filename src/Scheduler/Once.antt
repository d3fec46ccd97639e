-- ===== src/Scheduler/Once.antt =====
-- Scheduler_Sync (Engine/src/delta/core/ThreadContext.cpp) ends, and every job is called once.
use mathlib.Core.List.{Perm, Mem, append-nil}
use mathlib.Core.List.Perm
use mathlib.Core.Path.{subst}
use native.Mathlib.Nat.{mul-suc, mul-add}
use project_delta.Prelude.{
  ℕ, zero, suc, ◌+◌, ◌-◌, ◌*◌, ◌^◌, ◌≤◌, ◌<◌, ◌≡◌, inl, inr, ◌∙◌, sym, ap, refl, arith, List, [],
  ◌++◌, length, true, Option, none, some, dec_lt, ◌==◌,
}
use project_delta.Word.{u32}
use project_delta.Build.{Build, Outcome, returns, assert-true, ◌>>=◌}
use project_delta.EngineTypes.{ThreadArena, Job}
use project_delta.ThreadContext.{generic, is_main_thread}
use project_delta.Scheduler.{State, process_task_batch, sync_loop, sync, current_index, set_count}
use project_delta.Scheduler.All.{all, total, total-suc, total-eq-zero, all-eq-nil}
use project_delta.Scheduler.Batch.{process_task_batch-IsBatched}
use project_delta.Scheduler.Crew.{AllHold, update, update_self, update_ne}
use project_delta.Scheduler.Steal.{IsCallable}
use project_delta.Scheduler.Sync.{
  IsSynced, IsAhead-start, List-cases, Ends, IsTurn, loop_done, loop_none, loop_some,
}

module _ (effect : Job → ThreadArena → ThreadArena) (build : Build) (k hi start w last : ℕ)
    (few : w + 1 < 2 ^ 32) where
  loop-Ends :
      (fuel ix e : ℕ) (f : ℕ → List Job) (s : State)
      → IsTurn effect build k hi start w last few ix e f s
      → (w + 2) * total w f + (w + 1 - e) < fuel
      → Ends effect build k hi start w last few (sync_loop effect build fuel ix e s) f s
  loop-Ends zero ix e f s t enough = absurd (omega (arith, enough))
  loop-Ends (suc fuel) ix e f s t enough = elim (dec_lt e (w + 1)) [
    | no n ↦ loop_done effect build k hi start w last few fuel ix e f s t (omega (arith, n))
    | yes more ↦ elim (List-cases (f ix)) [
      | inl empty ↦
          loop_none effect build k hi start w last few fuel ix e f s t more empty
            λ ix' e' s' step t'. loop-Ends fuel ix' e' f s' t' (omega (arith, enough, step, more))
      | inr (x, xs, full) ↦
          let fewer : total w f ≡ suc (total w (update f ix xs)) =
            total-suc w ix (update f ix xs) f t.lo t.up
              (ap length full ∙ ap (λ l. suc (length l)) (sym (update_self f ix xs)))
              (λ j n. sym (update_ne f ix j xs n)) in
          let product = ap (λ n. (w + 2) * n) fewer ∙ mul-suc (w + 2) (total w (update f ix xs)) in
          loop_some effect build k hi start w last few fuel ix e f s x xs t more full λ ix' s' t'.
            loop-Ends fuel ix' 0 (update f ix xs) s' t' (omega (arith, enough, product))
    ]
  ]

  -- Called by the main thread, and if no job in the queues is null or fails the assertion on it,
  -- Scheduler_Sync returns: `w + 2` turns for each job and as many again are enough. All queues are then empty, the jobs that were in them have been called, each once, and the
  -- cursor of the caller's transient arena is where it was, whatever the tasks did to it.
  pub sync-IsSynced :
      (f : ℕ → List Job) (s : State)
      → 0 < w
      → AllHold k hi start w last s f
      → s.globals.current ≡ some 0
      → s.globals.contexts.main_context.generic.thread_ix ≡ 0
      → s.globals.thread_count ≡ w + 1
      → ((x : Job) → Mem x (all w f) → IsCallable build x)
      → (s' : State) × (sync effect build ((w + 2) * (total w f + 1)) s ≡ returns (some s'))
        × IsSynced k hi start w last f s s'
  unfolding sync Ends generic
  sync-IsSynced f s pos a on index threads good =
      let cs = s.globals.contexts in
      let thread_zero : ((generic cs (current_index s.globals)).thread_ix == 0) ≡ true =
        ap (λ c. (generic cs (elim c [ none ↦ 0 | some i ↦ i ])).thread_ix == 0) on
        ∙ ap (λ n. n == 0) index in
      let product = mul-add (w + 2) (total w f) 1 in
      let (s', e, r) =
        loop-Ends ((w + 2) * (total w f + 1)) 1 0 f s
          record {
            a = a;
            on = on;
            threads = threads;
            lo = omega arith;
            up = pos;
            le = omega arith;
            ahead = IsAhead-start w 1 f (omega arith) pos;
            good = good;
          }
          (omega (arith, product)) in
      (
        s',
        rw (assert-true build ((generic cs (current_index s.globals)).thread_ix == 0) thread_zero)
            e,
        r,
      )

-- A batch and a Scheduler_Sync after it, by the main thread.
unfoldable pub run_batch :
    (Job → ThreadArena → ThreadArena) → Build → ℕ → List Job → State → Outcome (Option State)
run_batch effect build fuel js s = process_task_batch build js s >>= λ s'. sync effect build fuel s'

module _ (effect : Job → ThreadArena → ThreadArena) (build : Build) (k hi start w last : ℕ) where
  -- With all queues empty, room for the batch in each, and no assertion on a job of it that fails, a
  -- batch and a Scheduler_Sync return with every job of the batch called exactly once, in some order,
  -- every queue empty again, and the cursor of the caller's transient arena where it was; the counter
  -- still has the number of jobs, modulo 2 ^ 32.
  pub run_batch_once :
      (js : List Job) (s : State)
      → 0 < w
      → w + 1 < 2 ^ 32
      → AllHold k hi start w last s (λ i. [])
      → is_main_thread s.globals ≡ true
      → s.globals.current ≡ some 0
      → s.globals.contexts.main_context.generic.thread_ix ≡ 0
      → s.globals.thread_count ≡ w + 1
      → last + length js ≤ hi
      → last + length js ≤ 2 ^ k
      → hi < 2 ^ 63
      → ((x : Job) → Mem x js → IsCallable build x)
      → (s' : State) × (called : List Job) × (run_batch effect build
            ((w + 2) * (length js + 1))
            js
            s
          ≡ returns (some s'))
        × (s'.store.calls ≡ s.store.calls ++ called)
        × Perm called js
        × AllHold k hi start w (last + length js) s' (λ i. [])
        × (s'.globals.contexts.main_context.generic.transient_arena.offset
            ≡ s.globals.contexts.main_context.generic.transient_arena.offset)
        × (s'.globals.contexts.main_context.dep_counter.count ≡ u32 (length js))
  unfolding run_batch set_count
  run_batch_once js s pos few a on_main on index threads below room small good =
      let (s1, e1, b, counted) =
        process_task_batch-IsBatched pos small build js last s (λ i. []) on_main a below room in
      let nothing = all-eq-nil w (λ i. []) (λ i _ _. refl) in
      let same : Perm (all w b.lists) js =
        subst (Perm (all w b.lists)) (ap (λ l. js ++ l) nothing ∙ append-nil js) b.same_jobs in
      let (s2, e2, r) =
        sync-IsSynced effect build k hi start w (last + length js) few b.lists s1 pos b.held
          (b.kept.current ∙ on) (b.kept.index ∙ index) (b.kept.threads ∙ threads)
          (λ x m. good x ((Perm.mem_iff same).0 m)) in
      let count : total w b.lists ≡ length js =
        omega (arith, b.count, total-eq-zero w (λ i. []) (λ i _ _. refl)) in
      (
        s2,
        r.js,
        rw e1 (ap (λ n. sync effect build ((w + 2) * (n + 1)) s1) (sym count) ∙ e2),
        r.calls ∙ ap (λ l. l ++ r.js) b.no_call,
        Perm.trans r.same_jobs same,
        r.held,
        r.kept.cursor ∙ b.kept.cursor,
        r.kept.count ∙ counted,
      )
