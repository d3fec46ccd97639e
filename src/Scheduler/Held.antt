-- ===== src/Scheduler/Held.antt =====
-- One worker's queue as the scheduler of Engine/src/delta/core/ThreadContext.cpp uses it: a list of jobs
-- in the worker's slice of address space.
use native.Mathlib.Nat.{one-le-pow}
use mathlib.Core.Path.{subst}
use project_delta.Prelude.{
  ℕ, zero, suc, ◌+◌, ◌*◌, ◌%◌, ◌^◌, ◌≤◌, ◌<◌, ◌≡◌, ◌⊎◌, ◌∙◌, sym, ap, refl, arith, Option, List, [],
  ◌∷◌, ◌++◌, length,
}
use project_delta.Prelude.Int.{pos}
use project_delta.EngineTypes.{Job, TaskQueue}
use project_delta.TaskQueue.{
  Store, task_cell, payload_cell, get_job, put_job, task_queue_push, task_queue_steal,
}
use project_delta.TaskQueue.Cells.{IsClear, IsClear-IsApart, task_cell-eq, payload_cell-eq}
use project_delta.TaskQueue.Contents.{jobs, jobs_ext}
use project_delta.TaskQueue.Deque.{Op, push, steal, pop_front, step}
use project_delta.TaskQueue.Ends.{IsQueue, push-eq}
use project_delta.TaskQueue.Refine.{step_queue, IsStep, push-IsStep, steal-IsStep}

-- The queue holds `xs`, lies in the 2 ^ 35 bytes from `base` on, has not passed index `last`, and has
-- clear cells below index `hi`.
pub record Holds (k hi base last : ℕ) (q : TaskQueue) (s : Store) (xs : List Job) : Type 0 where
  pub t : ℕ
  pub n : ℕ
  pub is : IsQueue q k t n
  pub content : jobs q s t n ≡ xs
  pub end_le : t + n ≤ last
  pub clear : IsClear q.tasks q.payloads k hi
  pub tasks_in : (base ≤ q.tasks) × (q.tasks + 8 * 2 ^ k ≤ base + 2 ^ 35)
  pub payloads_in : (base ≤ q.payloads) × (q.payloads + 8 * 2 ^ k ≤ base + 2 ^ 35)

length-jobs : (q : TaskQueue) (s : Store) (t n : ℕ) → length (jobs q s t n) ≡ n
length-jobs q s t zero = refl
length-jobs q s t (suc n) = ap suc (length-jobs q s (t + 1) n)

-- Memory outside the slice at `base` is the same.
abbrev pub SameOutside : ℕ → Store → Store → Type 0
SameOutside base s s' = (a : ℕ) → (a < base) ⊎ (base + 2 ^ 35 ≤ a) → s'.word a ≡ s.word a

-- The same queue under other names, with room to spare.
pub Holds-cong :
    {k hi base last last' : ℕ} {q q' : TaskQueue} {s s' : Store} {xs xs' : List Job}
    → last ≤ last'
    → q' ≡ q
    → s' ≡ s
    → xs' ≡ xs
    → Holds k hi base last q s xs
    → Holds k hi base last' q' s' xs'
Holds-cong {k} {hi} {base} {last} {last'} {q} {q'} {s} {s'} {xs} {xs'} le eq es ex h =
    subst (λ q. Holds k hi base last' q s' xs') (sym eq)
      (subst (λ s. Holds k hi base last' q s xs') (sym es)
        (subst (λ xs. Holds k hi base last' q s xs) (sym ex)
          record {
            t = h.t;
            n = h.n;
            is = h.is;
            content = h.content;
            end_le = omega (arith, h.end_le, le);
            clear = h.clear;
            tasks_in = h.tasks_in;
            payloads_in = h.payloads_in;
          }))

module _ {k hi base last : ℕ} {q : TaskQueue} {s : Store} {xs : List Job}
    (h : Holds k hi base last q s xs) where
  place-lt : (i : ℕ) → i % 2 ^ k < 2 ^ k
  place-lt i = omega (arith, one-le-pow k 2)

  length_lem : length xs ≡ h.n
  length_lem = ap length (sym h.content) ∙ length-jobs q s h.t h.n

  pub length-le : length xs ≤ last
  length-le = omega (arith, length_lem, h.end_le)

  cells_in :
      (i : ℕ)
      → i < 2 ^ 63
      → ((base ≤ task_cell q (pos i)) × (task_cell q (pos i) < base + 2 ^ 35))
        × ((base ≤ payload_cell q (pos i)) × (payload_cell q (pos i) < base + 2 ^ 35))
  cells_in i small = omega (
    arith,
    task_cell-eq h.is.ring i small,
    payload_cell-eq h.is.ring i small,
    place-lt i,
    h.tasks_in.0,
    h.tasks_in.1,
    h.payloads_in.0,
    h.payloads_in.1,
  )

  -- What is written elsewhere does not change the queue.
  pub Holds-elsewhere :
      (other : ℕ) (s' : Store)
      → (base + 2 ^ 35 ≤ other) ⊎ (other + 2 ^ 35 ≤ base)
      → SameOutside other s s'
      → Holds k hi base last q s' xs
  Holds-elsewhere other s' apart same = record {
    t = h.t;
    n = h.n;
    is = h.is;
    content = jobs_ext q q s' s h.t h.n same_job ∙ h.content;
    end_le = h.end_le;
    clear = h.clear;
    tasks_in = h.tasks_in;
    payloads_in = h.payloads_in;
  }
    where
      same_job : (i : ℕ) → h.t ≤ i → i < h.t + h.n → get_job q (pos i) s' ≡ get_job q (pos i) s
      same_job i lo up =
          let c = cells_in i (omega (arith, up, h.is.small)) in
          ground (
            arith,
            same (task_cell q (pos i)) (ground (arith, c.0, apart)),
            same (payload_cell q (pos i)) (ground (arith, c.1, apart)),
          )

  -- A call changes no memory.
  pub Holds-same_word : (s' : Store) → s'.word ≡ s.word → Holds k hi base last q s' xs
  Holds-same_word s' same = record {
    t = h.t;
    n = h.n;
    is = h.is;
    content =
        jobs_ext q q s' s h.t h.n (λ i _ _.
          ap (λ m. record { task = m (task_cell q (pos i)); payload = m (payload_cell q (pos i)) })
            same)
        ∙ h.content;
    end_le = h.end_le;
    clear = h.clear;
    tasks_in = h.tasks_in;
    payloads_in = h.payloads_in;
  }

  put_job-SameOutside : (i : ℕ) (j : Job) → i < 2 ^ 63 → SameOutside base s (put_job q (pos i) j s)
  put_job-SameOutside i j small a out = ground (arith, cells_in i small, out)

  -- What an operation leaves, from what TaskQueue.Refine says of it.
  Holds-step :
      (o : Op) {after : Option Job × TaskQueue × Store} (st : IsStep o q s k h.t h.n after)
      (last' : ℕ)
      → st.t' + st.n' ≤ last'
      → Holds k hi base last' after.1 after.2 (step o xs).1
  Holds-step o st last' le = record {
    t = st.t';
    n = st.n';
    is = st.still;
    content = ap (λ x. x.1) st.agrees ∙ ap (λ l. (step o l).1) h.content;
    end_le = le;
    clear = rw (st.arrays.0, st.arrays.1) h.clear;
    tasks_in = rw (st.arrays.0) h.tasks_in;
    payloads_in = rw (st.arrays.1) h.payloads_in;
  }

  pub Holds-push :
      (j : Job)
      → length xs < 2 ^ k
      → last < hi
      → hi < 2 ^ 63
      → let (q', s') = task_queue_push q j s in
        Holds k hi base (last + 1) q' s' (xs ++ j ∷ [])
        × SameOutside base s s'
        × (s'.calls ≡ s.calls)
  unfolding task_queue_push step_queue
  Holds-push j room below small =
      let few : h.n < 2 ^ k = omega (arith, room, length_lem) in
      let end : h.t + h.n + 1 ≤ hi = omega (arith, h.end_le, below) in
      let apart =
        IsClear-IsApart h.is.ring h.t (h.t + h.n + 1) (omega (arith, end, small))
          (λ i j ih jh. h.clear i j (omega (arith, ih, end)) (omega (arith, jh, end))) in
      let st = push-IsStep h.is s j few (omega (arith, end, small)) apart in
      (
        Holds-step (push j) st (last + 1) (omega (arith, st.end_le, h.end_le)),
        rw (push-eq h.is s j few) (put_job-SameOutside (h.t + h.n) j h.is.small),
        st.no_call,
      )

  -- TaskQueue_Steal takes the first job, if there is one.
  pub Holds-steal :
      let (r, q') = task_queue_steal q s in
      (r ≡ (pop_front xs).0) × Holds k hi base last q' s (pop_front xs).1
  unfolding step_queue
  Holds-steal =
      let st = steal-IsStep h.n h.is s in
      (
        ap (λ x. x.0) st.agrees ∙ ap (λ l. (pop_front l).0) h.content,
        Holds-step steal st last (omega (arith, st.end_le, h.end_le)),
      )
