-- ===== src/TaskQueue/Contents.antt =====
-- The jobs that a queue of Engine/src/delta/core/ThreadContext.cpp holds, oldest first.
use mathlib.Core.Path.{ap₂}
use native.Mathlib.Nat.{add-zero}
use project_delta.Prelude.{
  ℕ, zero, suc, ◌+◌, ◌^◌, ◌≤◌, ◌<◌, ◌≡◌, ◌∙◌, ap, refl, arith, List, [], ◌∷◌, ◌++◌,
}
use project_delta.Prelude.Int.{pos}
use project_delta.EngineTypes.{Job, TaskQueue}
use project_delta.TaskQueue.{Store, get_job, put_job}
use project_delta.TaskQueue.Cells.{IsRing, IsApart, get_job-put_job_ne, get_job-put_job_self}

-- The `n` jobs from index `t` on.
abbrev pub jobs : TaskQueue → Store → ℕ → ℕ → List Job
jobs q s t zero = []
jobs q s t (suc n) = get_job q (pos t) s ∷ jobs q s (t + 1) n

-- The last of them.
pub jobs-suc :
    (q : TaskQueue) (s : Store) (t n : ℕ)
    → jobs q s t (suc n) ≡ jobs q s t n ++ get_job q (pos (t + n)) s ∷ []
jobs-suc q s t zero = rw add-zero
jobs-suc q s t (suc n) =
    ap (λ xs. get_job q (pos t) s ∷ xs)
      (jobs-suc q s (t + 1) n
        ∙ ap (λ i. jobs q s (t + 1) n ++ get_job q (pos i) s ∷ []) (omega arith))

-- Equal memory at the indices means equal jobs.
pub jobs_ext :
    (q q' : TaskQueue) (s s' : Store) (t n : ℕ)
    → ((i : ℕ) → t ≤ i → i < t + n → get_job q (pos i) s ≡ get_job q' (pos i) s')
    → jobs q s t n ≡ jobs q' s' t n
jobs_ext q q' s s' t zero same = refl
jobs_ext q q' s s' t (suc n) same =
    ap₂ ◌∷◌ (same t (omega arith) (omega arith))
      (jobs_ext q q' s s' (t + 1) n (λ i p h. same i (omega arith) (omega arith)))

-- A job written behind the others extends the queue by it.
pub jobs-put_job :
    {q : TaskQueue} {k : ℕ} (r : IsRing q k) (s : Store) (t n : ℕ) (j : Job)
    → n < 2 ^ k
    → t + n < 2 ^ 63
    → IsApart q t (t + n + 1)
    → jobs q (put_job q (pos (t + n)) j s) t (suc n) ≡ jobs q s t n ++ j ∷ []
jobs-put_job {q} r s t n j room small apart =
    jobs-suc q after t n
    ∙ ap₂ (λ xs x. xs ++ x ∷ [])
        (jobs_ext q q after s t n (get_job-put_job_ne r t (t + n) small (omega arith) apart j s))
        (get_job-put_job_self r t (t + n) small (omega arith) apart j s (omega arith))
  where
    after : Store
    after = put_job q (pos (t + n)) j s
