-- ===== src/Scheduler/Crew.antt =====
-- The queues of all workers under one step of Scheduler_ProcessTaskBatch or Scheduler_Sync
-- (Engine/src/delta/core/ThreadContext.cpp).
use mathlib.Core.Path.{subst}
use project_delta.Prelude.{
  ℕ, ◌+◌, ◌*◌, ◌^◌, ◌≤◌, ◌<◌, ◌≡◌, ◌≢◌, ◌⊎◌, ◌∙◌, inl, inr, sym, ap, refl, arith, ◌==◌, List, [],
  ◌∷◌, ◌++◌, ℕ_discrete, if◌then◌else◌, Bool-cases,
}
use project_delta.EngineTypes.{Job, TaskQueue}
use project_delta.TaskQueue.{Store, task_queue_push}
use project_delta.ThreadContext.{Globals, set_worker}
use project_delta.Scheduler.{State, queue_of, put_queue, wake, push_to}
use project_delta.Scheduler.Held.{
  Holds, Holds-cong, length-le, SameOutside, Holds-elsewhere, Holds-push,
}

-- What no step changes in the globals.
pub record IsKept (g g' : Globals) : Type 0 where
  pub threads : g'.thread_count ≡ g.thread_count
  pub workers : g'.worker_count ≡ g.worker_count
  pub current : g'.current ≡ g.current
  pub index : g'.contexts.main_context.generic.thread_ix ≡ g.contexts.main_context.generic.thread_ix
  pub count : g'.contexts.main_context.dep_counter.count ≡ g.contexts.main_context.dep_counter.count
  pub cursor :
      g'.contexts.main_context.generic.transient_arena.offset
      ≡ g.contexts.main_context.generic.transient_arena.offset

pub IsKept-refl : (g : Globals) → IsKept g g
IsKept-refl g = record {
  threads = refl;
  workers = refl;
  current = refl;
  index = refl;
  count = refl;
  cursor = refl;
}

pub IsKept-trans : {g h i : Globals} → IsKept g h → IsKept h i → IsKept g i
IsKept-trans a b = record {
  threads = b.threads ∙ a.threads;
  workers = b.workers ∙ a.workers;
  current = b.current ∙ a.current;
  index = b.index ∙ a.index;
  count = b.count ∙ a.count;
  cursor = b.cursor ∙ a.cursor;
}

pub queue_of-put_queue_self : (i : ℕ) (q : TaskQueue) (s : State) → queue_of (put_queue i q s) i ≡ q
unfolding put_queue set_worker
queue_of-put_queue_self i q s = ground arith

pub queue_of-put_queue_ne :
    (i j : ℕ) (q : TaskQueue) (s : State) → j ≢ i → queue_of (put_queue i q s) j ≡ queue_of s j
unfolding put_queue set_worker
queue_of-put_queue_ne i j q s n = ground (arith, n)

pub put_queue-IsKept :
    (i : ℕ) (q : TaskQueue) (s : State) → IsKept s.globals (put_queue i q s).globals
unfolding put_queue set_worker
put_queue-IsKept i q s = record {
  threads = refl;
  workers = refl;
  current = refl;
  index = refl;
  count = refl;
  cursor = refl;
}

pub put_queue-store : (i : ℕ) (q : TaskQueue) (s : State) → (put_queue i q s).store ≡ s.store
unfolding put_queue
put_queue-store i q s = refl

wake-eq : (i : ℕ) (s : State) → ((wake i s).globals ≡ s.globals) × ((wake i s).store ≡ s.store)
unfolding wake
wake-eq i s = elim (Bool-cases (s.globals.contexts.worker_context i).is_asleep) [
  | inl e ↦ rw e (refl, refl)
  | inr e ↦ rw e (refl, refl)
]

-- The slice of worker `i`.
abbrev pub slice : ℕ → ℕ → ℕ
slice start i = start + i * 2 ^ 35

slices_apart :
    (start i j : ℕ)
    → j ≢ i
    → (slice start j + 2 ^ 35 ≤ slice start i) ⊎ (slice start i + 2 ^ 35 ≤ slice start j)
slices_apart start i j n = ground (arith, n)

-- Each worker's queue holds its list, in its slice.
pub record AllHold (k hi start w last : ℕ) (s : State) (f : ℕ → List Job) : Type 0 where
  pub holds : (i : ℕ) → 0 < i → i ≤ w → Holds k hi (slice start i) last (queue_of s i) s.store (f i)
  pub workers : s.globals.worker_count ≡ w

abbrev pub update : (ℕ → List Job) → ℕ → List Job → ℕ → List Job
update f i xs j = if j == i then xs else f j

pub update_self : (f : ℕ → List Job) (i : ℕ) (xs : List Job) → update f i xs i ≡ xs
update_self f i xs = ground arith

pub update_ne : (f : ℕ → List Job) (i j : ℕ) (xs : List Job) → j ≢ i → update f i xs j ≡ f j
update_ne f i j xs n = ground (arith, n)

module _ {k hi start w last : ℕ} {s : State} {f : ℕ → List Job}
    (a : AllHold k hi start w last s f) where
  -- One queue and the memory of its slice change.
  pub AllHold-one :
      {s' : State} (i : ℕ) {q : TaskQueue} {st : Store} {xs : List Job} {last' : ℕ}
      → last ≤ last'
      → Holds k hi (slice start i) last' q st xs
      → SameOutside (slice start i) s.store st
      → queue_of s' i ≡ q
      → ((j : ℕ) → j ≢ i → queue_of s' j ≡ queue_of s j)
      → s'.store ≡ st
      → s'.globals.worker_count ≡ s.globals.worker_count
      → AllHold k hi start w last' s' (update f i xs)
  AllHold-one {s'} i {q} {st} {xs} {last'} le h same self others e same_workers = record {
    holds = λ j lo up. elim (ℕ_discrete j i) [
      | yes z ↦
          subst (λ j. Holds k hi (slice start j) last' (queue_of s' j) s'.store (update f i xs j))
            (sym z) (Holds-cong le_self self e (update_self f i xs) h)
      | no n ↦
          Holds-cong le (others j n) e (update_ne f i j xs n)
            (Holds-elsewhere (a.holds j lo up) (slice start i) st (slices_apart start i j n) same)
    ];
    workers = same_workers ∙ a.workers;
  }
    where
      le_self : last' ≤ last'
      le_self = omega arith

  -- One push, to worker `i`.
  pub push_to-AllHold :
      (i : ℕ) (j : Job)
      → 0 < i
      → i ≤ w
      → last < 2 ^ k
      → last < hi
      → hi < 2 ^ 63
      → AllHold k hi start w (last + 1) (push_to i j s) (update f i (f i ++ j ∷ []))
        × IsKept s.globals (push_to i j s).globals
        × ((push_to i j s).store.calls ≡ s.store.calls)
  unfolding push_to
  push_to-AllHold i j lo up room below small =
      let h = a.holds i lo up in
      let (held, same, calls) = Holds-push h j (omega (arith, length-le h, room)) below small in
      let (q, st) = task_queue_push (queue_of s i) j s.store in
      let s1 : State = record s { store = st } in
      let (woken, stored) = wake-eq i (put_queue i q s1) in
      let queue = λ (j : ℕ). ap (λ g. (g.contexts.worker_context j).task_queue) woken in
      let kept = subst (IsKept s.globals) (sym woken) (put_queue-IsKept i q s1) in
      let st_is = stored ∙ put_queue-store i q s1 in
      (
        AllHold-one i (omega arith) held same (queue i ∙ queue_of-put_queue_self i q s1)
            (λ j n. queue j ∙ queue_of-put_queue_ne i j q s1 n) st_is kept.workers,
        kept,
        ap (λ t. t.calls) st_is ∙ calls,
      )
