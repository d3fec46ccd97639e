-- ===== src/TaskQueue/Run.antt =====
-- Any sequence of calls of TaskQueue_Push, TaskQueue_Pop and TaskQueue_Steal
-- (Engine/src/delta/core/ThreadContext.cpp) by one thread.
use project_delta.Prelude.{
  ℕ, zero, suc, ◌+◌, ◌^◌, ◌≤◌, ◌<◌, ◌≡◌, ◌∙◌, ap, refl, arith, Option, List, [], ◌∷◌, length,
}
use mathlib.Core.Path.{ap₂}
use project_delta.EngineTypes.{Job, TaskQueue}
use project_delta.TaskQueue.{Store}
use project_delta.TaskQueue.Cells.{IsClear-IsApart, IsClear}
use project_delta.TaskQueue.Contents.{jobs}
use project_delta.TaskQueue.Deque.{Op, push, pop, steal, pop_back, step, pushes-le}
use project_delta.TaskQueue.Ends.{IsQueue}
use project_delta.TaskQueue.Refine.{step_queue, IsStep, push-IsStep, pop-IsStep, steal-IsStep}

-- What the calls hand out.
unfoldable pub run_queue : List Op → TaskQueue → Store → List (Option Job)
run_queue [] q s = []
run_queue (o ∷ os) q s = let (r, q', s') = step_queue o q s in r ∷ run_queue os q' s'

unfoldable pub run_deque : List Op → List Job → List (Option Job)
unfolding pop_back
run_deque [] xs = []
run_deque (o ∷ os) xs = let (r, xs') = step o xs in r ∷ run_deque os xs'

-- No push finds `room` jobs in the double-ended queue.
abbrev pub HasRoom : ℕ → List Op → List Job → Type 0
HasRoom room [] xs = Unit {0}
HasRoom room (push j ∷ os) xs = (length xs < room) × HasRoom room os (step (push j) xs).1
HasRoom room (o ∷ os) xs = HasRoom room os (step o xs).1

length-jobs : (q : TaskQueue) (s : Store) (t n : ℕ) → length (jobs q s t n) ≡ n
length-jobs q s t zero = refl
length-jobs q s t (suc n) = ap suc (length-jobs q s (t + 1) n)

-- What holds of the rest of a run, whatever queue it starts from.
abbrev Agrees : List Op → ℕ → ℕ → Type 0
Agrees os k hi =
    (q : TaskQueue) (t n : ℕ) (s : Store)
    → IsQueue q k t n
    → IsClear q.tasks q.payloads k hi
    → t + n + length os ≤ hi
    → hi < 2 ^ 63
    → HasRoom (2 ^ k) os (jobs q s t n)
    → run_queue os q s ≡ run_deque os (jobs q s t n)

Agrees-cons :
    (o : Op) (os : List Op) (q : TaskQueue) (k t n hi : ℕ) (s : Store)
    → IsClear q.tasks q.payloads k hi
    → t + n + length (o ∷ os) ≤ hi
    → hi < 2 ^ 63
    → HasRoom (2 ^ k) os (step o (jobs q s t n)).1
    → IsStep o q s k t n (step_queue o q s)
    → Agrees os k hi
    → run_queue (o ∷ os) q s ≡ run_deque (o ∷ os) (jobs q s t n)
unfolding run_queue run_deque
Agrees-cons o os q k t n hi s apart small few room st rest =
    let after = step_queue o q s in
    let same = ap (λ x. x.1) st.agrees in
    ap₂ ◌∷◌ (ap (λ x. x.0) st.agrees) (
      rest after.1 st.t' st.n' after.2 st.still (rw (st.arrays.0, st.arrays.1) apart)
        (omega (arith, st.end_le, pushes-le o)) few (rw same room)
      ∙ ap (run_deque os) same)

run_queue-Agrees : (os : List Op) (k hi : ℕ) → Agrees os k hi
run_queue-Agrees [] k hi q t n s v apart small few room = unfold run_queue run_deque in refl
run_queue-Agrees (push j ∷ os) k hi q t n s v apart small few (below, room) =
    Agrees-cons (push j) os q k t n hi s apart small few room
      (push-IsStep v s j (omega (arith, length-jobs q s t n)) (omega arith) (
        IsClear-IsApart v.ring t (t + n + 1) (omega arith)
          (λ i j ih jh. apart i j (omega arith) (omega arith))))
      (run_queue-Agrees os k hi)
run_queue-Agrees (pop ∷ os) k hi q t n s v apart small few room =
    Agrees-cons pop os q k t n hi s apart small few room (pop-IsStep n v s)
      (run_queue-Agrees os k hi)
run_queue-Agrees (steal ∷ os) k hi q t n s v apart small few room =
    Agrees-cons steal os q k t n hi s apart small few room (steal-IsStep n v s)
      (run_queue-Agrees os k hi)

-- While no task lies in the cell of a payload at the indices that come up, no push finds the queue
-- full and fewer than 2 ^ 63 calls are made, nothing that the calls hand out tells the queue from the
-- double-ended queue of its jobs.
pub run_queue-eq-run_deque :
    (os : List Op) (q : TaskQueue) (k t n hi : ℕ) (s : Store)
    → IsQueue q k t n
    → IsClear q.tasks q.payloads k hi
    → t + n + length os ≤ hi
    → hi < 2 ^ 63
    → HasRoom (2 ^ k) os (jobs q s t n)
    → run_queue os q s ≡ run_deque os (jobs q s t n)
run_queue-eq-run_deque os q k t n hi s v apart small few room =
    run_queue-Agrees os k hi q t n s v apart small few room
