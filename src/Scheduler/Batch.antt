-- ===== src/Scheduler/Batch.antt =====
-- Scheduler_ProcessTaskBatch (Engine/src/delta/core/ThreadContext.cpp): where the jobs of a batch go.
use mathlib.Core.List.{Perm, perm_append_singleton, perm_middle}
use mathlib.Core.List.Perm
use mathlib.Core.Path.{subst}
use project_delta.Prelude.{
  ℕ, suc, ◌+◌, ◌%◌, ◌^◌, ◌≤◌, ◌<◌, ◌≡◌, ◌∙◌, ap, refl, arith, List, [], ◌∷◌, ◌++◌, length,
  length-append, true,
}
use project_delta.Word.{u32}
use project_delta.Build.{assert-true, Build, returns}
use project_delta.EngineTypes.{Job}
use project_delta.ThreadContext.{is_main_thread}
use project_delta.Scheduler.{State, push_to, push_all, set_count, process_task_batch}
use project_delta.Scheduler.All.{all, all-Perm, total, total-suc}
use project_delta.Scheduler.Crew.{
  AllHold, IsKept, IsKept-refl, IsKept-trans, update, update_self, update_ne, push_to-AllHold,
}

-- The jobs `js` have been put into the queues, which held the lists `f`.
pub record IsBatched (k hi start w last : ℕ) (js : List Job) (f : ℕ → List Job) (s s' : State)
    : Type 0 where
  pub lists : ℕ → List Job
  pub held : AllHold k hi start w last s' lists
  pub same_jobs : Perm (all w lists) (js ++ all w f)
  pub count : total w lists ≡ length js + total w f
  pub kept : IsKept s.globals s'.globals
  pub no_call : s'.store.calls ≡ s.store.calls

one_more :
    (w : ℕ) (f : ℕ → List Job) (i : ℕ) (j : Job)
    → 0 < i
    → i ≤ w
    → Perm (all w (update f i (f i ++ j ∷ []))) (j ∷ all w f)
one_more w f i j lo up =
    all-Perm w i j f (update f i (f i ++ j ∷ [])) lo up
      (rw (update_self f i (f i ++ j ∷ [])) (perm_append_singleton j (f i)))
      (λ m n. update_ne f i m (f i ++ j ∷ []) n)

one_longer :
    (w : ℕ) (f : ℕ → List Job) (i : ℕ) (j : Job)
    → 0 < i
    → i ≤ w
    → total w (update f i (f i ++ j ∷ [])) ≡ suc (total w f)
one_longer w f i j lo up =
    total-suc w i f (update f i (f i ++ j ∷ [])) lo up
      (ap length (update_self f i (f i ++ j ∷ [])) ∙ omega (arith, length-append (f i) (j ∷ [])))
      (λ m n. update_ne f i m (f i ++ j ∷ []) n)

module _ {k hi start w : ℕ} (some_worker : 0 < w) (small : hi < 2 ^ 63) where
  push_all-IsBatched :
      (js : List Job) (i last end : ℕ) (s : State) (f : ℕ → List Job)
      → AllHold k hi start w last s f
      → last + length js ≡ end
      → end ≤ hi
      → end ≤ 2 ^ k
      → IsBatched k hi start w end js f s (push_all js i s)
  unfolding push_all
  push_all-IsBatched [] i last end s f a e below room = record {
    lists = f;
    held = subst (λ n. AllHold k hi start w n s f) (omega (arith, e)) a;
    same_jobs = Perm.refl (all w f);
    count = omega arith;
    kept = IsKept-refl s.globals;
    no_call = refl;
  }
  push_all-IsBatched (j ∷ js) i last end s f a e below room =
      let ix = 1 + i % s.globals.worker_count in
      let up : ix ≤ w = omega (arith, a.workers, some_worker) in
      let (held, kept, calls) =
        push_to-AllHold a ix j (omega arith) up (omega (arith, e, room)) (omega (arith, e, below))
          small in
      let r =
        push_all-IsBatched js (i + 1) (last + 1) end (push_to ix j s) (update f ix (f ix ++ j ∷ []))
          held (omega (arith, e)) below room in
      record {
        lists = r.lists;
        held = r.held;
        same_jobs = Perm.trans r.same_jobs (
            Perm.trans (Perm.append_left js (one_more w f ix j (omega arith) up))
              (perm_middle js (all w f)));
        count = omega (arith, r.count, one_longer w f ix j (omega arith) up);
        kept = IsKept-trans kept r.kept;
        no_call = r.no_call ∙ calls;
      }

  -- Called by the main thread, a batch of jobs that the queues have room for returns with each job in
  -- one of the queues and no job called, and with the number of jobs, in 32 bits, as the count.
  pub process_task_batch-IsBatched :
      (build : Build) (js : List Job) (last : ℕ) (s : State) (f : ℕ → List Job)
      → is_main_thread s.globals ≡ true
      → AllHold k hi start w last s f
      → last + length js ≤ hi
      → last + length js ≤ 2 ^ k
      → (s' : State) × (process_task_batch build js s ≡ returns s')
        × IsBatched k hi start w (last + length js) js f (set_count (u32 (length js)) s) s'
        × (s'.globals.contexts.main_context.dep_counter.count ≡ u32 (length js))
  unfolding process_task_batch set_count
  process_task_batch-IsBatched build js last s f on_main a below room =
      let s0 = set_count (u32 (length js)) s in
      let r =
        push_all-IsBatched js 0 last (last + length js) s0 f
          (record { holds = a.holds; workers = a.workers }) refl below room in
      (
        push_all js 0 s0,
        rw (assert-true build (is_main_thread s.globals) on_main) refl,
        r,
        r.kept.count,
      )
