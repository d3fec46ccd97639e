-- ===== src/Scheduler/Steal.antt =====
-- One turn of Scheduler_Sync (Engine/src/delta/core/ThreadContext.cpp): what a steal from a worker's
-- queue, and the call of the stolen task, leave.
use project_delta.Prelude.{
  ℕ, ◌+◌, ◌*◌, ◌%◌, ◌^◌, ◌≤◌, ◌<◌, ◌≡◌, ◌∙◌, sym, ap, refl, arith, ◌==◌, not, ◌&&◌, List, [], ◌∷◌,
  ◌++◌, false, Option, none, some, ℕ_discrete,
}
use mathlib.Core.Path.{subst}
use project_delta.Word.{u32}
use project_delta.Build.{Build, Outcome, returns, assert}
use project_delta.EngineTypes.{ThreadArena, Job, TaskQueue}
use project_delta.TaskQueue.{task_queue_steal, call_job}
use project_delta.TaskQueue.Deque.{pop_front}
use project_delta.ThreadContext.{generic, set_generic}
use project_delta.Scheduler.{State, queue_of, put_queue, run_task_in, run_task, turn}
use project_delta.Scheduler.Held.{Holds, Holds-cong, Holds-same_word, Holds-steal}
use project_delta.Scheduler.Crew.{
  slice, AllHold, AllHold-one, IsKept, IsKept-trans, put_queue-IsKept, put_queue-store,
  queue_of-put_queue_self, queue_of-put_queue_ne, update, update_self, update_ne,
}

-- `assert(task && payload)` passes, and the task is not null.
abbrev pub IsCallable : Build → Job → Type 0
IsCallable build j =
    (assert build (not (j.task == 0) && not (j.payload == 0)) ≡ returns tt)
    × ((j.task == 0) ≡ false)

AllHold-ext :
    {k hi start w last : ℕ} {s : State} {f g : ℕ → List Job}
    → ((i : ℕ) → f i ≡ g i)
    → AllHold k hi start w last s f
    → AllHold k hi start w last s g
AllHold-ext {k} {hi} {start} {w} {last} {s} e a = record {
  holds = λ i lo up.
      subst (λ l. Holds k hi (start + i * 2 ^ 35) last (queue_of s i) s.store l) (e i)
        (a.holds i lo up);
  workers = a.workers;
}

module _ (effect : Job → ThreadArena → ThreadArena) where
  run_task-IsKept : (j : Job) (s : State) → IsKept s.globals (run_task_in effect 0 j s).globals
  unfolding run_task_in set_generic generic
  run_task-IsKept j s = record {
    threads = refl;
    workers = refl;
    current = refl;
    index = refl;
    count = refl;
    cursor = refl;
  }

  queue_of-run_task :
      (j : Job) (s : State) (i : ℕ) → queue_of (run_task_in effect 0 j s) i ≡ queue_of s i
  unfolding run_task_in set_generic generic
  queue_of-run_task j s i = refl

  run_task-store : (j : Job) (s : State) → (run_task_in effect 0 j s).store ≡ call_job j s.store
  unfolding run_task_in
  run_task-store j s = refl

  -- The two branches of a turn.
  pub turn-none :
      (build : Build) (next : ℕ → ℕ → State → Outcome (Option State)) (ix e : ℕ) (s : State)
      (p : Option Job × TaskQueue)
      → p.0 ≡ none
      → turn effect build next ix e s p
        ≡ next (1 + ix % s.globals.worker_count) (u32 (e + 1)) (put_queue ix p.1 s)
  unfolding turn
  turn-none build next ix e s (none, q) h = refl
  turn-none build next ix e s (some j, q) h = cc

  pub turn-some :
      (build : Build) (next : ℕ → ℕ → State → Outcome (Option State)) (ix e : ℕ) (s : State)
      (p : Option Job × TaskQueue) (j : Job)
      → p.0 ≡ some j
      → IsCallable build j
      → turn effect build next ix e s p
        ≡ next (1 + ix % s.globals.worker_count) 0 (run_task effect j (put_queue ix p.1 s))
  unfolding turn
  turn-some build next ix e s (o, q) j h c =
      ap (λ o. turn effect build next ix e s (o, q)) h ∙ rw (c.0, c.1) refl

  module _ {k hi start w last : ℕ} {s : State} {f : ℕ → List Job}
      (a : AllHold k hi start w last s f) (ix : ℕ) (lo : 0 < ix) (up : ix ≤ w) where
    abbrev stolen : Option Job × TaskQueue
    stolen = task_queue_steal (queue_of s ix) s.store

    same_lists :
        (pop_front (f ix)).1 ≡ [] → f ix ≡ [] → (i : ℕ) → update f ix (pop_front (f ix)).1 i ≡ f i
    same_lists none_left empty i = elim (ℕ_discrete i ix) [
      | yes z ↦
          subst (λ i. update f ix (pop_front (f ix)).1 i ≡ f i) (sym z)
            (update_self f ix (pop_front (f ix)).1 ∙ none_left ∙ sym empty)
      | no n ↦ update_ne f ix i (pop_front (f ix)).1 n
    ]

    -- A steal from an empty queue changes nothing.
    pub steal_none :
        f ix ≡ []
        → let (r, q) = task_queue_steal (queue_of s ix) s.store in
          (r ≡ none)
          × AllHold k hi start w last (put_queue ix q s) f
          × IsKept s.globals (put_queue ix q s).globals
          × ((put_queue ix q s).store.calls ≡ s.store.calls)
    steal_none empty =
        let (taken, held) = Holds-steal (a.holds ix lo up) in
        let q = stolen.1 in
        let kept = put_queue-IsKept ix q s in
        (
          taken ∙ ap (λ l. (pop_front l).0) empty,
          AllHold-ext (same_lists (ap (λ l. (pop_front l).1) empty) empty) (
              AllHold-one a ix (omega arith) held (λ x _. refl) (queue_of-put_queue_self ix q s)
                (λ j n. queue_of-put_queue_ne ix j q s n) (put_queue-store ix q s) kept.workers),
          kept,
          ap (λ t. t.calls) (put_queue-store ix q s),
        )

    -- A steal from a queue that holds `x` first takes it, and the task is called once.
    pub steal_some :
        (x : Job) (xs : List Job)
        → f ix ≡ x ∷ xs
        → s.globals.current ≡ some 0
        → let (r, q) = task_queue_steal (queue_of s ix) s.store in
          let s' = run_task effect x (put_queue ix q s) in
          (r ≡ some x)
          × AllHold k hi start w last s' (update f ix xs)
          × IsKept s.globals s'.globals
          × (s'.store.calls ≡ s.store.calls ++ x ∷ [])
    steal_some x xs full on =
        let (taken, held) = Holds-steal (a.holds ix lo up) in
        let q = stolen.1 in
        let mid = put_queue ix q s in
        let kept = put_queue-IsKept ix q s in
        let at_zero : run_task_in effect 0 x mid ≡ run_task effect x mid =
          ap (λ c. run_task_in effect (elim c [ none ↦ 0 | some i ↦ i ]) x mid)
            (sym (kept.current ∙ on)) in
        let ran = IsKept-trans kept (run_task-IsKept x mid) in
        let queue = queue_of-run_task x mid in
        let stored = run_task-store x mid in
        let words = ap (λ t. t.word) stored ∙ ap (λ t. t.word) (put_queue-store ix q s) in
        let rest : Holds k hi (slice start ix) last q (run_task_in effect 0 x mid).store xs =
          Holds-cong (omega arith) refl refl (sym (ap (λ l. (pop_front l).1) full))
            (Holds-same_word held (run_task_in effect 0 x mid).store words) in
        let here =
          AllHold-one a {s' = run_task_in effect 0 x mid} ix (omega arith) rest
            (λ y _. ap (λ m. m y) words) (queue ix ∙ queue_of-put_queue_self ix q s)
            (λ j n. queue j ∙ queue_of-put_queue_ne ix j q s n) refl ran.workers in
        let all_three =
          subst
            (λ s'.
              AllHold k hi start w last s' (update f ix xs)
              × IsKept s.globals s'.globals
              × (s'.store.calls ≡ s.store.calls ++ x ∷ []))
            at_zero
            (
              here,
              ran,
              ap (λ t. t.calls) stored ∙ ap (λ t. t.calls ++ x ∷ []) (put_queue-store ix q s),
            ) in
        (taken ∙ ap (λ l. (pop_front l).0) full, all_three.0, all_three.1, all_three.2)
