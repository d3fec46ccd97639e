-- ===== src/Scheduler/Sync.antt =====
-- Scheduler_Sync (Engine/src/delta/core/ThreadContext.cpp): what each way through the body of the loop
-- leaves for the turns that follow.
use mathlib.Core.List.{Perm, Mem, mem-cons_self, mem-cons_of_mem, append-nil, append_assoc}
use mathlib.Core.List.Perm
use mathlib.Core.Path.{subst}
use project_delta.Prelude.{
  ℕ, suc, ◌+◌, ◌%◌, ◌^◌, ◌≤◌, ◌<◌, ◌≡◌, ◌≢◌, ◌⊎◌, inl, inr, ◌∙◌, sym, ap, refl, arith, List, [],
  ◌∷◌, ◌++◌, true, false, Option, some, ltb,
}
use project_delta.Word.{u32}
use project_delta.Build.{Build, Outcome, returns}
use project_delta.EngineTypes.{ThreadArena, Job}
use project_delta.TaskQueue.{task_queue_steal}
use project_delta.Scheduler.{State, queue_of, put_queue, run_task, turn, sync_loop}
use project_delta.Scheduler.Held.{Holds}
use project_delta.Scheduler.All.{all, all-Perm, all-eq-nil}
use project_delta.Scheduler.Crew.{
  slice, AllHold, IsKept, IsKept-refl, IsKept-trans, update, update_self, update_ne,
}
use project_delta.Scheduler.Steal.{IsCallable, turn-none, turn-some, steal_none, steal_some}
use project_delta.Scheduler.Turn.{distance, distance-lt, distance-turn, turn-range}

-- All queues are empty, the jobs `js` have been called, each once, and the caller's arena is as it was.
pub record IsSynced (k hi start w last : ℕ) (f : ℕ → List Job) (s s' : State) : Type 0 where
  pub js : List Job
  pub calls : s'.store.calls ≡ s.store.calls ++ js
  pub same_jobs : Perm js (all w f)
  pub held : AllHold k hi start w last s' (λ i. [])
  pub kept : IsKept s.globals s'.globals

-- A worker whose queue is not empty is visited before the count of empty queues is full.
abbrev pub IsAhead : ℕ → ℕ → ℕ → (ℕ → List Job) → Type 0
IsAhead w ix e f = (i : ℕ) → 0 < i → i ≤ w → f i ≢ [] → distance w ix i + e < w

pub List-cases : (l : List Job) → (l ≡ []) ⊎ ((x : Job) × (xs : List Job) × (l ≡ x ∷ xs))
List-cases [] = inl refl
List-cases (x ∷ xs) = inr (x, xs, refl)

-- Once the count has reached the number of workers no job is left.
IsAhead-empty :
    (w ix e : ℕ) (f : ℕ → List Job) → IsAhead w ix e f → w ≤ e → (i : ℕ) → 0 < i → i ≤ w → f i ≡ []
IsAhead-empty w ix e f ahead le i lo hi = elim (List-cases (f i)) [
  | inl none_left ↦ none_left
  | inr (x, xs, z) ↦ absurd (omega (arith, le, ahead i lo hi (λ n. not_both x xs (sym z ∙ n))))
]
  where
    not_both : (x : Job) (xs : List Job) → (x ∷ xs) ≢ []
    not_both x xs e = cc

-- An empty queue brings every other worker one turn closer.
IsAhead-turn :
    (w ix e : ℕ) (f : ℕ → List Job)
    → 0 < ix
    → ix ≤ w
    → f ix ≡ []
    → IsAhead w ix e f
    → IsAhead w (1 + ix % w) (e + 1) f
IsAhead-turn w ix e f lo up empty ahead i ilo iup n =
    let other : i ≢ ix = λ z. n (ap f z ∙ empty) in
    omega (arith, distance-turn w ix i lo up ilo iup other, ahead i ilo iup n)

-- With no empty queue in a row every worker is ahead.
pub IsAhead-start : (w ix : ℕ) (f : ℕ → List Job) → 0 < ix → ix ≤ w → IsAhead w ix 0 f
IsAhead-start w ix f lo up i ilo iup n = omega (arith, distance-lt w ix i lo up ilo iup)

module _ (effect : Job → ThreadArena → ThreadArena) (build : Build) (k hi start w last : ℕ)
    (few : w + 1 < 2 ^ 32) where
  unfoldable pub Ends : Outcome (Option State) → (ℕ → List Job) → State → Type 0
  Ends o f s = (s' : State) × (o ≡ returns (some s')) × IsSynced k hi start w last f s s'

  -- What the loop starts a turn with.
  pub record IsTurn (ix e : ℕ) (f : ℕ → List Job) (s : State) : Type 0 where
    pub a : AllHold k hi start w last s f
    pub on : s.globals.current ≡ some 0
    pub threads : s.globals.thread_count ≡ w + 1
    pub lo : 0 < ix
    pub up : ix ≤ w
    pub le : e ≤ w + 1
    pub ahead : IsAhead w ix e f
    pub good : (x : Job) → Mem x (all w f) → IsCallable build x

  pub loop_done :
      (fuel ix e : ℕ) (f : ℕ → List Job) (s : State)
      → IsTurn ix e f s
      → w + 1 ≤ e
      → Ends (sync_loop effect build (suc fuel) ix e s) f s
  unfolding Ends sync_loop
  loop_done fuel ix e f s t full =
      let stop : ltb e s.globals.thread_count ≡ false = ground (arith, t.threads) in
      let empty = IsAhead-empty w ix e f t.ahead (omega (arith, full)) in
      (
        s,
        rw (stop, sync_loop) refl,
        record {
          js = [];
          calls = sym (append-nil s.store.calls);
          same_jobs = rw (all-eq-nil w f empty) Perm.nil;
          held = record {
            holds = λ i lo up.
                subst (λ l. Holds k hi (slice start i) last (queue_of s i) s.store l)
                  (empty i lo up) (t.a.holds i lo up);
            workers = t.a.workers;
          };
          kept = IsKept-refl s.globals;
        },
      )

  loop_on :
      (fuel ix e : ℕ) (s : State)
      → ltb e s.globals.thread_count ≡ true
      → sync_loop effect build (suc fuel) ix e s
        ≡ turn effect build
            (sync_loop effect build fuel)
            ix
            e
            s
            (task_queue_steal (queue_of s ix) s.store)
  unfolding sync_loop
  loop_on fuel ix e s h = rw (h, sync_loop) refl

  pub loop_none :
      (fuel ix e : ℕ) (f : ℕ → List Job) (s : State)
      → IsTurn ix e f s
      → e < w + 1
      → f ix ≡ []
      → ((ix' e' : ℕ) (s' : State)
          → e' ≡ e + 1
          → IsTurn ix' e' f s'
          → Ends (sync_loop effect build fuel ix' e' s') f s')
      → Ends (sync_loop effect build (suc fuel) ix e s) f s
  unfolding Ends
  loop_none fuel ix e f s t more empty rest =
      let on : ltb e s.globals.thread_count ≡ true = ground (arith, t.threads, more) in
      let (taken, a, kept, calls) = steal_none effect t.a ix t.lo t.up empty in
      let ix' = 1 + ix % s.globals.worker_count in
      let inside = turn-range w ix (omega (arith, t.lo, t.up)) in
      let small : u32 (e + 1) ≡ e + 1 = omega (arith, few, more) in
      let s1 = put_queue ix (task_queue_steal (queue_of s ix) s.store).1 s in
      let turned : IsTurn ix' (u32 (e + 1)) f s1 = record {
        a = a;
        on = kept.current ∙ t.on;
        threads = kept.threads ∙ t.threads;
        lo = omega arith;
        up = omega (arith, t.a.workers, inside.1);
        le = omega (arith, small, more);
        ahead =
            subst (λ n. IsAhead w (1 + ix % n) (u32 (e + 1)) f) (sym t.a.workers)
              (subst (λ n. IsAhead w (1 + ix % w) n f) (sym small)
                (IsAhead-turn w ix e f t.lo t.up empty t.ahead));
        good = t.good;
      } in
      let (s', e', r) = rest ix' (u32 (e + 1)) s1 small turned in
      (
        s',
        loop_on fuel ix e s on ∙ turn-none effect build _ ix e s _ taken ∙ e',
        record {
          js = r.js;
          calls = r.calls ∙ ap (λ l. l ++ r.js) calls;
          same_jobs = r.same_jobs;
          held = r.held;
          kept = IsKept-trans kept r.kept;
        },
      )

  pub loop_some :
      (fuel ix e : ℕ) (f : ℕ → List Job) (s : State) (x : Job) (xs : List Job)
      → IsTurn ix e f s
      → e < w + 1
      → f ix ≡ x ∷ xs
      → ((ix' : ℕ) (s' : State)
          → IsTurn ix' 0 (update f ix xs) s'
          → Ends (sync_loop effect build fuel ix' 0 s') (update f ix xs) s')
      → Ends (sync_loop effect build (suc fuel) ix e s) f s
  unfolding Ends
  loop_some fuel ix e f s x xs t more full rest =
      let on : ltb e s.globals.thread_count ≡ true = ground (arith, t.threads, more) in
      let (taken, a, kept, calls) = steal_some effect t.a ix t.lo t.up x xs full t.on in
      let ix' = 1 + ix % s.globals.worker_count in
      let inside = turn-range w ix (omega (arith, t.lo, t.up)) in
      let up : ix' ≤ w = omega (arith, t.a.workers, inside.1) in
      let s1 = run_task effect x (put_queue ix (task_queue_steal (queue_of s ix) s.store).1 s) in
      let g = update f ix xs in
      let p : Perm (all w f) (x ∷ all w g) =
        all-Perm w ix x g f t.lo t.up
          (subst (Perm (f ix)) (full ∙ ap (λ l. x ∷ l) (sym (update_self f ix xs)))
            (Perm.refl (f ix)))
          (λ j n. sym (update_ne f ix j xs n)) in
      let turned : IsTurn ix' 0 g s1 = record {
        a = a;
        on = kept.current ∙ t.on;
        threads = kept.threads ∙ t.threads;
        lo = omega arith;
        up = up;
        le = omega arith;
        ahead = IsAhead-start w ix' g (omega arith) up;
        good = λ y m. t.good y ((Perm.mem_iff p).1 (mem-cons_of_mem x m));
      } in
      let callable = t.good x ((Perm.mem_iff p).1 mem-cons_self) in
      let (s', e', r) = rest ix' s1 turned in
      (
        s',
        loop_on fuel ix e s on ∙ turn-some effect build _ ix e s _ x taken callable ∙ e',
        record {
          js = x ∷ r.js;
          calls = r.calls ∙ ap (λ l. l ++ r.js) calls ∙ append_assoc s.store.calls (x ∷ []) r.js;
          same_jobs = Perm.trans (Perm.cons x r.same_jobs) (Perm.symm p);
          held = r.held;
          kept = IsKept-trans kept r.kept;
        },
      )
