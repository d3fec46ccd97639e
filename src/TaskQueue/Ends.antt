-- ===== src/TaskQueue/Ends.antt =====
-- What TaskQueue_Push, TaskQueue_Pop and TaskQueue_Steal of Engine/src/delta/core/ThreadContext.cpp
-- compute on a queue whose ends are known.
use native.Mathlib.Nat.{add-zero}
use project_delta.Prelude.{ℕ, suc, ◌+◌, ◌^◌, ◌<◌, ◌≡◌, ◌∙◌, ap, refl, arith, none, some}
use project_delta.Prelude.Int.{pos}
use project_delta.EngineTypes.{Job, TaskQueue}
use project_delta.TaskQueue.{
  Store, task_cell, payload_cell, get_job, put_job, task_queue_push, take_bottom, task_queue_pop,
  task_queue_steal,
}
use project_delta.TaskQueue.Cells.{IsRing}
use project_delta.TaskQueue.Contents.{jobs, jobs_ext}

-- A queue that holds the `n` jobs from index `t` on.
pub record IsQueue (q : TaskQueue) (k t n : ℕ) : Type 0 where
  pub ring : IsRing q k
  pub top_is : q.top ≡ pos t
  pub bottom_is : q.bottom ≡ pos (t + n)
  pub small : t + n < 2 ^ 63

-- The queue with its ends moved.
abbrev pub moved : TaskQueue → ℕ → ℕ → TaskQueue
moved q t b = record q { top = pos t; bottom = pos b }

pub jobs-moved : (q : TaskQueue) (s : Store) (t b i n : ℕ) → jobs (moved q t b) s i n ≡ jobs q s i n
unfolding task_cell payload_cell
jobs-moved q s t b i n = jobs_ext (moved q t b) q s s i n (λ _ _ _. refl)

pub IsQueue-moved :
    {q : TaskQueue} {k : ℕ} (t n b : ℕ)
    → IsRing q k
    → b ≡ t + n
    → t + n < 2 ^ 63
    → IsQueue (moved q t b) k t n
IsQueue-moved t n b r e small = record {
  ring = record {
    few = r.few;
    size_is = r.size_is;
    mask_is = r.mask_is;
    tasks_end = r.tasks_end;
    payloads_end = r.payloads_end;
  };
  top_is = refl;
  bottom_is = ap pos e;
  small = small;
}

module _ {q : TaskQueue} {k t n : ℕ} (v : IsQueue q k t n) (s : Store) where
  pub push-eq :
      (j : Job)
      → n < 2 ^ k
      → task_queue_push q j s ≡ (moved q t (t + n + 1), put_job q (pos (t + n)) j s)
  unfolding task_queue_push
  push-eq j room = ground (arith, v, v.ring)

  pub pop-eq-none : n ≡ 0 → task_queue_pop q s ≡ (none, q)
  unfolding task_queue_pop
  pop-eq-none e = ground (arith, v)

  -- `bottom` goes back by one, and the test `t > b` fails.
  pop-eq-take_bottom :
      (m : ℕ)
      → n ≡ suc m
      → task_queue_pop q s
        ≡ take_bottom
            (moved q t (t + m))
            (pos t)
            (pos (t + m))
            (get_job (moved q t (t + m)) (pos (t + m)) s)
  unfolding task_queue_pop
  pop-eq-take_bottom m e = ground (arith, v)

  -- The last job is taken by moving `top`, the others by moving `bottom`.
  pub pop-eq-last :
      n ≡ 1 → task_queue_pop q s ≡ (some (get_job q (pos t) s), moved q (t + 1) (t + 1))
  unfolding take_bottom task_cell payload_cell
  pop-eq-last e = pop-eq-take_bottom 0 e ∙ ground (arith, add-zero t)

  pub pop-eq-some :
      (m : ℕ)
      → n ≡ suc (suc m)
      → task_queue_pop q s ≡ (some (get_job q (pos (t + suc m)) s), moved q t (t + suc m))
  unfolding take_bottom task_cell payload_cell
  pop-eq-some m e = pop-eq-take_bottom (suc m) e ∙ ground arith

  pub steal-eq-none : n ≡ 0 → task_queue_steal q s ≡ (none, q)
  unfolding task_queue_steal
  steal-eq-none e = ground (arith, v)

  pub steal-eq-some :
      0 < n → task_queue_steal q s ≡ (some (get_job q (pos t) s), moved q (t + 1) (t + n))
  unfolding task_queue_steal
  steal-eq-some e = ground (arith, v)
