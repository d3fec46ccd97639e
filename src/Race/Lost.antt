-- ===== src/Race/Lost.antt =====
-- TaskQueue_Push against TaskQueue_Pop (Engine/src/delta/core/ThreadContext.cpp), which both store into
-- `bottom`: runs in which a job is left out, and in which one is handed out twice.
use mathlib.Core.Path.{subst}
use project_delta.Prelude.{ℕ, ◌+◌, ◌≤◌, ◌<◌, ◌≡◌, ◌∙◌, ap, arith, List, [], ◌∷◌, true, false}
use project_delta.Prelude.Int.{ℤ, pos, ◌+ℤ◌, ◌-ℤ◌, ltb_ℤ}
use project_delta.Race.{
  Owner, resting, loaded, lowered, load, lower, check, find_none, take, raise, Other, idle,
  got_bottom, System, load_bottom, write, publish, Batches, pop, push, Reach, here, next, starting,
}
use project_delta.Race.Order.{lowered-IsPred, suc-IsPred, suc-pos}

abbrev pub at : ℤ → ℤ → List ℤ → List ℤ → Owner → Other → System
at t b taken written o x = record {
  shared = record { top = t; bottom = b; taken = taken; written = written };
  owner = o;
  other = x;
}

pred-pos_lem : (n : ℕ) → pos (n + 1) -ℤ pos 1 ≡ pos n
unfolding ◌-ℤ◌
pred-pos_lem n = ground arith

lowered_below : (n : ℕ) → ltb_ℤ (pos n -ℤ pos 1) (pos n) ≡ true
unfolding ◌-ℤ◌
lowered_below n = ground arith

lowered_has_room : (n size : ℕ) → ltb_ℤ (pos size) (pos n -ℤ pos 1 -ℤ pos n) ≡ false
unfolding ◌-ℤ◌
lowered_has_room n size = ground arith

two_have_room : (n size : ℕ) → 2 ≤ size → ltb_ℤ (pos size) (pos (n + 2) -ℤ pos n) ≡ false
unfolding ◌-ℤ◌
two_have_room n size le = ground arith

module _ {size : ℤ} {s : System} {taken written : List ℤ} where
  -- The owner pops the last of several jobs.
  pops :
      (t n b : ℕ) (x : Other)
      → t < n
      → b ≡ n + 1
      → Reach (Batches size) s (at (pos t) (pos b) taken written resting x)
      → Reach (Batches size) s (at (pos t) (pos n) (pos n ∷ taken) written resting x)
  pops t n b x lt is r =
      let one_less : pos b -ℤ pos 1 ≡ pos n = ap (λ b. pos b -ℤ pos 1) is ∙ pred-pos_lem n in
      let loads =
        subst (λ l. Reach (Batches size) s (at (pos t) (pos b) taken written (loaded l) x)) one_less
          (next r (pop load)) in
      next (next (next loads (pop lower)) (pop check)) (pop (take (ground arith) (ground arith)))

-- A worker that pops an empty queue while the main thread pushes to it: for every queue that is empty at
-- `n` and any size, there is a run in which the push puts a job at `n - 1` and completes, and the two end
-- at rest with `top` and `bottom` both `n` and nothing handed out, so the job is left out.
pub job_left_out :
    (n size : ℕ)
    → Reach
        (Batches (pos size))
        (starting n n)
        (at (pos n) (pos n) [] ((pos n -ℤ pos 1) ∷ []) resting idle)
job_left_out n size =
    let b : ℤ = pos n -ℤ pos 1 in
    let is : b +ℤ pos 1 ≡ pos n = suc-IsPred b n (lowered-IsPred n) in
    let R = Reach (Batches (pos size)) (starting n n) in
    let pushed : R (at (pos n) (b +ℤ pos 1) [] (b ∷ []) (lowered b) idle) =
      next
        (next (next (next (next here (pop load)) (pop lower)) (push load_bottom))
          (push (write (lowered_has_room n size))))
        (push publish) in
    let raised : R (at (pos n) (b +ℤ pos 1) [] (b ∷ []) resting idle) =
      next (next (next pushed (pop check)) (pop (find_none (lowered_below n)))) (pop raise) in
    subst (λ v. R (at (pos n) v [] (b ∷ []) resting idle)) is raised

-- A worker that pops a queue with two jobs, at `n` and `n + 1`, while the main thread pushes a third to
-- it, in a ring of two places or more: there is a run in which the jobs handed out are, in this order,
-- those at `n + 1`, `n + 2` and `n + 1` again.
pub job_taken_twice :
    (n size : ℕ)
    → 2 ≤ size
    → Reach (Batches (pos size)) (starting n (n + 2)) (
        at
          (pos n)
          (pos (n + 1))
          (pos (n + 1) ∷ pos (n + 2) ∷ pos (n + 1) ∷ [])
          (pos (n + 2) ∷ [])
          resting
          idle)
job_taken_twice n size le =
    let R = Reach (Batches (pos size)) (starting n (n + 2)) in
    let popped : R
        (at (pos n) (pos (n + 1)) (pos (n + 1) ∷ []) [] resting (got_bottom (pos (n + 2)))) =
      pops n (n + 1) (n + 2) (got_bottom (pos (n + 2))) (omega arith) (omega arith)
        (next here (push load_bottom)) in
    let pushed : R
        (at (pos n) (pos (n + 2 + 1)) (pos (n + 1) ∷ []) (pos (n + 2) ∷ []) resting idle) =
      subst (λ b. R (at (pos n) b (pos (n + 1) ∷ []) (pos (n + 2) ∷ []) resting idle))
        (suc-pos (n + 2))
        (next (next popped (push (write (two_have_room n size le)))) (push publish)) in
    pops n (n + 1) (n + 2) idle (omega arith) (omega arith)
      (pops n (n + 2) (n + 2 + 1) idle (omega arith) (omega arith) pushed)
