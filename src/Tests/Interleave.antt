-- ===== src/Tests/Interleave.antt =====
-- A worker and the main thread at the last job of a queue (Engine/src/delta/core/ThreadContext.cpp).
use project_delta.Prelude.{ℕ, ◌+◌, ◌≤◌, ◌≡◌, refl, arith, [], ◌∷◌}
use project_delta.Prelude.Int.{pos, ◌+ℤ◌, ◌-ℤ◌}
use project_delta.Race.{
  resting, load, lower, check, lose, raise, idle, load_top, see_some, steal_win, System, Syncs, pop,
  steal, Batches, Reach, here, next, starting,
}
use project_delta.Race.Order.{occurs, within}
use project_delta.Race.Exclusive.{handed_out_once, none_passed_over}
use project_delta.Race.Lost.{at, job_left_out, job_taken_twice}

-- The thief and the owner come to the only job at once, and the thief gets it.
abbrev stolen : System
stolen = at (pos 8) (pos 8) (pos 7 ∷ []) [] resting idle

raced : Reach Syncs (starting 7 8) stolen
unfolding ◌+ℤ◌ ◌-ℤ◌
raced =
    next
      (next
        (next
          (next
            (next (next (next (next here (steal load_top)) (steal (see_some refl))) (pop load))
              (pop lower))
            (pop check))
          (steal (steal_win refl)))
        (pop (lose refl refl refl)))
      (pop raise)

handed_out_once_example : occurs 7 stolen.shared.taken ≤ within 7 8 7
handed_out_once_example = handed_out_once 7 8 stolen (omega arith) raced 7

none_passed_over_example :
    (t : ℕ) × (f : ℕ) × (stolen.shared.top ≡ pos t)
    × (stolen.shared.bottom ≡ pos f)
    × (t ≤ f)
    × ((i : ℕ) → occurs i stolen.shared.taken + within t f i ≡ within 7 8 i)
none_passed_over_example = none_passed_over 7 8 stolen (omega arith) raced refl

job_left_out_example :
    Reach
      (Batches (pos 256))
      (starting 3 3)
      (at (pos 3) (pos 3) [] ((pos 3 -ℤ pos 1) ∷ []) resting idle)
job_left_out_example = job_left_out 3 256

job_taken_twice_example :
    Reach
      (Batches (pos 256))
      (starting 4 6)
      (at (pos 4) (pos 5) (pos 5 ∷ pos 6 ∷ pos 5 ∷ []) (pos 6 ∷ []) resting idle)
job_taken_twice_example = job_taken_twice 4 256 (omega arith)
