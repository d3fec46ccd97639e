-- ===== src/TaskQueue/Refine.antt =====
-- TaskQueue_Push, TaskQueue_Pop and TaskQueue_Steal of Engine/src/delta/core/ThreadContext.cpp as the
-- operations of a double-ended queue, while no other thread uses the queue and it is not full.
use project_delta.Prelude.{
  ℕ, zero, suc, ◌+◌, ◌^◌, ◌≤◌, ◌<◌, ◌≡◌, ◌∙◌, sym, ap, refl, arith, Option, none, some,
}
use project_delta.Prelude.Int.{pos}
use project_delta.EngineTypes.{Job, TaskQueue}
use project_delta.TaskQueue.{
  Store, get_job, put_job, task_queue_push, task_queue_pop, task_queue_steal,
}
use project_delta.TaskQueue.Cells.{IsApart}
use project_delta.TaskQueue.Contents.{jobs, jobs-suc, jobs-put_job}
use project_delta.TaskQueue.Deque.{Op, push, pop, steal, pop_back, pop_back-append, step, pushes}
use project_delta.TaskQueue.Ends.{
  IsQueue, jobs-moved, IsQueue-moved, push-eq, pop-eq-none, pop-eq-last, pop-eq-some, steal-eq-none,
  steal-eq-some,
}

-- One operation of the code: the job that it hands out, and what it leaves.
unfoldable pub step_queue : Op → TaskQueue → Store → Option Job × TaskQueue × Store
step_queue (push j) q s = let (q', s') = task_queue_push q j s in (none, q', s')
step_queue pop q s = let (r, q') = task_queue_pop q s in (r, q', s)
step_queue steal q s = let (r, q') = task_queue_steal q s in (r, q', s)

-- `after` is what the operation does to the double-ended queue of the jobs.
pub record IsStep (op : Op) (q : TaskQueue) (s : Store) (k t n : ℕ)
    (after : Option Job × TaskQueue × Store) : Type 0 where
  pub t' : ℕ
  pub n' : ℕ
  pub still : IsQueue after.1 k t' n'
  pub agrees : (after.0, jobs after.1 after.2 t' n') ≡ step op (jobs q s t n)
  pub end_le : t' + n' ≤ t + n + pushes op
  pub arrays : (after.1.tasks ≡ q.tasks) × (after.1.payloads ≡ q.payloads)
  pub no_call : after.2.calls ≡ s.calls

pub push-IsStep :
    {q : TaskQueue} {k t n : ℕ} (v : IsQueue q k t n) (s : Store) (j : Job)
    → n < 2 ^ k
    → t + n + 1 < 2 ^ 63
    → IsApart q t (t + n + 1)
    → IsStep (push j) q s k t n (step_queue (push j) q s)
unfolding step_queue
push-IsStep {q} {k} {t} {n} v s j room small apart = rw (push-eq v s j room) (record {
  t' = t;
  n' = suc n;
  still = IsQueue-moved t (suc n) (t + n + 1) v.ring (omega arith) (omega arith);
  agrees =
      ap (λ xs. (none, xs))
        (jobs-moved q (put_job q (pos (t + n)) j s) t (t + n + 1) t (suc n)
          ∙ jobs-put_job v.ring s t n j room (omega arith) apart);
  end_le = omega arith;
  arrays = (refl, refl);
  no_call = refl;
})

pub pop-IsStep :
    {q : TaskQueue} {k t : ℕ} (n : ℕ) (v : IsQueue q k t n) (s : Store)
    → IsStep pop q s k t n (step_queue pop q s)
unfolding step_queue pop_back
pop-IsStep {t = t} zero v s = rw (pop-eq-none v s refl) (record {
  t' = t;
  n' = 0;
  still = v;
  agrees = refl;
  end_le = omega arith;
  arrays = (refl, refl);
  no_call = refl;
})
pop-IsStep {q} {t = t} (suc zero) v s = rw (pop-eq-last v s refl) (record {
  t' = t + 1;
  n' = 0;
  still = IsQueue-moved (t + 1) 0 (t + 1) v.ring (omega arith) (omega (arith, v.small));
  agrees = refl;
  end_le = omega arith;
  arrays = (refl, refl);
  no_call = refl;
})
pop-IsStep {q} {t = t} (suc (suc m)) v s = rw (pop-eq-some v s m refl) (record {
  t' = t;
  n' = suc m;
  still = IsQueue-moved t (suc m) (t + suc m) v.ring refl (omega (arith, v.small));
  agrees =
      ap (λ xs. (some (get_job q (pos (t + suc m)) s), xs)) (jobs-moved q s t (t + suc m) t (suc m))
      ∙ sym (ap pop_back (jobs-suc q s t (suc m)) ∙ pop_back-append _ _);
  end_le = omega arith;
  arrays = (refl, refl);
  no_call = refl;
})

pub steal-IsStep :
    {q : TaskQueue} {k t : ℕ} (n : ℕ) (v : IsQueue q k t n) (s : Store)
    → IsStep steal q s k t n (step_queue steal q s)
unfolding step_queue
steal-IsStep {t = t} zero v s = rw (steal-eq-none v s refl) (record {
  t' = t;
  n' = 0;
  still = v;
  agrees = refl;
  end_le = omega arith;
  arrays = (refl, refl);
  no_call = refl;
})
steal-IsStep {q} {t = t} (suc m) v s = rw (steal-eq-some v s (omega arith)) (record {
  t' = t + 1;
  n' = m;
  still = IsQueue-moved (t + 1) m (t + suc m) v.ring (omega arith) (omega (arith, v.small));
  agrees =
      ap (λ xs. (some (get_job q (pos t) s), xs)) (jobs-moved q s (t + 1) (t + suc m) (t + 1) m);
  end_le = omega arith;
  arrays = (refl, refl);
  no_call = refl;
})
