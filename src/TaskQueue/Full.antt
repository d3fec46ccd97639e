-- ===== src/TaskQueue/Full.antt =====
-- TaskQueue_Push (Engine/src/delta/core/ThreadContext.cpp) into a queue with no place left: its test
-- is `b - t > size` where a ring of `size` places is full at `b - t == size`.
use native.Mathlib.Nat.{add-mod_right}
use mathlib.Core.List.{append-nil, append_assoc}
use project_delta.Prelude.{
  ℕ, ◌+◌, ◌*◌, ◌%◌, ◌^◌, ◌≤◌, ◌<◌, ◌≡◌, ◌≢◌, ◌∙◌, sym, ap, refl, arith, some, List, [], ◌∷◌, ◌++◌,
  length,
}
use project_delta.Prelude.Int.{pos}
use project_delta.Build.{Build, returns}
use project_delta.Pal.{Pal}
use project_delta.EngineTypes.{ThreadPageCoordinator, Job, TaskQueue}
use project_delta.MemoryMap.Worker
use project_delta.TaskQueue.{
  Store, task_cell, payload_cell, get_job, put_job, call_job, task_queue_push, task_queue_steal,
  initialize_queue, QueueInit,
}
use project_delta.TaskQueue.Cells.{IsRing, task_cell-eq, payload_cell-eq}
use project_delta.TaskQueue.Ends.{IsQueue, moved, IsQueue-moved, steal-eq-some}
use project_delta.TaskQueue.Init.{initialized, initialize_queue-eq, initialized-IsQueue}

-- The jobs pushed one after the other.
unfoldable pub push_jobs : TaskQueue → List Job → Store → TaskQueue × Store
push_jobs q [] s = (q, s)
push_jobs q (j ∷ js) s = let (q', s') = task_queue_push q j s in push_jobs q' js s'

push_jobs-append :
    (q : TaskQueue) (xs ys : List Job) (s : Store)
    → push_jobs q (xs ++ ys) s ≡ push_jobs (push_jobs q xs s).0 ys (push_jobs q xs s).1
unfolding push_jobs
push_jobs-append q [] ys s = refl
push_jobs-append q (x ∷ xs) ys s =
    push_jobs-append (task_queue_push q x s).0 xs ys (task_queue_push q x s).1

module _ {q : TaskQueue} {k t n : ℕ} (v : IsQueue q k t n) (s : Store) (j : Job) where
  -- Both branches of a push, by the number of jobs held.
  task_queue_push_cases :
      (n ≤ 2 ^ k → task_queue_push q j s ≡ (moved q t (t + n + 1), put_job q (pos (t + n)) j s))
      × (2 ^ k < n → task_queue_push q j s ≡ (q, call_job j s))
  unfolding task_queue_push
  task_queue_push_cases = ground (arith, v, v.ring)

  -- `2 ^ k` places further on the ring stands again at the same cells.
  same_cells :
      n ≡ 2 ^ k
      → t + n < 2 ^ 63
      → (task_cell q (pos (t + n)) ≡ task_cell q (pos t))
        × (payload_cell q (pos (t + n)) ≡ payload_cell q (pos t))
  same_cells full small =
      let same : (t + n) % 2 ^ k ≡ t % 2 ^ k = rw full (add-mod_right t (2 ^ k)) in
      (
        task_cell-eq v.ring (t + n) small
            ∙ ap (λ x. q.tasks + 8 * x) same
            ∙ sym (task_cell-eq v.ring t (omega arith)),
        payload_cell-eq v.ring (t + n) small
            ∙ ap (λ x. q.payloads + 8 * x) same
            ∙ sym (payload_cell-eq v.ring t (omega arith)),
      )

  -- The job that is written there is the one that is read back at `t`.
  get_job-put_job_full :
      n ≡ 2 ^ k
      → t + n < 2 ^ 63
      → task_cell q (pos t) ≢ payload_cell q (pos t)
      → get_job q (pos t) (put_job q (pos (t + n)) j s) ≡ j
  get_job-put_job_full full small apart = ground (arith, same_cells full small, apart)

module _ {q : TaskQueue} {k : ℕ} (r : IsRing q k) (t : ℕ) where
  -- As long as no more than the ring's size are held, pushes call nothing and move the end on.
  pushed :
      (n : ℕ) (js : List Job) (s : Store)
      → t + n + length js < 2 ^ 63
      → n + length js ≤ 2 ^ k
      → (s' : Store) × (push_jobs (moved q t (t + n)) js s ≡ (moved q t (t + n + length js), s'))
        × (s'.calls ≡ s.calls)
  unfolding push_jobs
  pushed n [] s small room = (s, ap (λ b. (moved q t b, s)) (omega arith), refl)
  pushed n (j ∷ js) s small room =
      let v = IsQueue-moved t n (t + n) r refl (omega (arith, small)) in
      let s1 = put_job (moved q t (t + n)) (pos (t + n)) j s in
      let (s', e, c) = pushed (n + 1) js s1 (omega (arith, small)) (omega (arith, room)) in
      (
        s',
        ap (λ p. push_jobs p.0 js p.1)
              ((task_queue_push_cases v s j).0 (omega (arith, room))
                ∙ ap (λ b. (moved q t b, s1)) (omega arith))
            ∙ e
            ∙ ap (λ b. (moved q t b, s')) (omega arith),
        c,
      )

  -- With more than that every job is called at once.
  spilled :
      (n : ℕ) (js : List Job) (s : Store)
      → t + n < 2 ^ 63
      → 2 ^ k < n
      → push_jobs (moved q t (t + n)) js s ≡ (moved q t (t + n), record s { calls = s.calls ++ js })
  unfolding push_jobs
  spilled n [] s small over =
      ap (λ c. (moved q t (t + n), record s { calls = c })) (sym (append-nil s.calls))
  spilled n (j ∷ js) s small over =
      let v = IsQueue-moved t n (t + n) r refl small in
      ap (λ p. push_jobs p.0 js p.1) ((task_queue_push_cases v s j).1 over)
      ∙ spilled n js (call_job j s) small over
      ∙ ap (λ c. (moved q t (t + n), record s { calls = c })) (append_assoc s.calls (j ∷ []) js)

  overfull :
      (js : List Job) (j : Job) (more : List Job) (s : Store)
      → length js ≡ 2 ^ k
      → t + 2 ^ k + 1 < 2 ^ 63
      → task_cell q (pos t) ≢ payload_cell q (pos t)
      → let (q', s') = push_jobs (moved q t (t + 0)) (js ++ j ∷ more) s in
        (q'.bottom ≡ pos (t + 2 ^ k + 1))
        × (s'.calls ≡ s.calls ++ more)
        × ((task_queue_steal q' s').0 ≡ some j)
  unfolding push_jobs task_cell payload_cell
  overfull js j more s many small apart =
      let (s1, e, c) = pushed 0 js s (omega (arith, small, many)) (omega (arith, many)) in
      let full = IsQueue-moved t (2 ^ k) (t + 2 ^ k) r refl (omega (arith, small)) in
      let s2 = put_job (moved q t (t + 2 ^ k)) (pos (t + 2 ^ k)) j s1 in
      let after = record s2 { calls = s2.calls ++ more } in
      let over = IsQueue-moved t (2 ^ k + 1) (t + (2 ^ k + 1)) r refl (omega (arith, small)) in
      let last_two : push_jobs (moved q t (t + 2 ^ k)) (j ∷ more) s1
          ≡ (moved q t (t + (2 ^ k + 1)), after) =
        ap (λ p. push_jobs p.0 more p.1)
          ((task_queue_push_cases full s1 j).0 (omega arith)
            ∙ ap (λ b. (moved q t b, s2)) (omega arith))
        ∙ spilled (2 ^ k + 1) more s2 (omega (arith, small)) (omega arith) in
      let run : push_jobs (moved q t (t + 0)) (js ++ j ∷ more) s
          ≡ (moved q t (t + (2 ^ k + 1)), after) =
        push_jobs-append (moved q t (t + 0)) js (j ∷ more) s
        ∙ ap (λ p. push_jobs p.0 (j ∷ more) p.1)
            (e ∙ ap (λ b. (moved q t b, s1)) (omega (arith, many)))
        ∙ last_two in
      rw run (
        ap pos (omega arith),
        ap (λ l. l ++ more) c,
        ap (λ x. x.0) (steal-eq-some over after (omega arith))
            ∙ ap some (get_job-put_job_full full s1 j refl (omega (arith, small)) apart),
      )

module _ (pal : Pal) (build : Build) (page_coord : ThreadPageCoordinator) (old : TaskQueue)
    (dep_counter : ℕ) (w : pal.World) (r : QueueInit pal) where
  abbrev base : ℕ
  base = page_coord.virtual_address_base + Worker.virt_zone_queue_offset

  -- Into the queue that InitializeQueue made with the engine's sizes, in memory that does not run over
  -- the end of the address space, 4097 pushes without a steal or a pop between them call nothing though
  -- it has 4096 places; each push after them calls its job at once; and the first
  -- job that is then stolen is the last of the 4097, in the place of the first.
  pub push_jobs-steal :
      base + 2 ^ 16 ≤ 2 ^ 64
      → initialize_queue pal build page_coord old dep_counter Worker.virt_zone_queue_offset
          Worker.virt_zone_queue_size w
        ≡ returns r
      → (js : List Job) (j : Job) (more : List Job) (s : Store) → length js ≡ 4096
      → let (q', s') = push_jobs r.queue (js ++ j ∷ more) s in
        (q'.bottom ≡ pos 4097)
        × (s'.calls ≡ s.calls ++ more)
        × ((task_queue_steal q' s').0 ≡ some j)
  push_jobs-steal small h js j more s many =
      let v = initialized-IsQueue pal build page_coord old dep_counter w r small in
      let q = initialized pal build page_coord old dep_counter w r in
      rw (initialize_queue-eq pal build page_coord old dep_counter w r small h) (
        overfull v.ring 0 js j more s many (omega arith) (λ e.
          omega (
            arith,
            e,
            task_cell-eq v.ring 0 (omega arith),
            payload_cell-eq v.ring 0 (omega arith),
          )))
