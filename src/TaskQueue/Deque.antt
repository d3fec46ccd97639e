-- ===== src/TaskQueue/Deque.antt =====
-- What a task queue promises to its one user: a double-ended queue of jobs, oldest first. New jobs
-- come in at the back, the owner takes from the back, a thief from the front.
use project_delta.Prelude.{ℕ, ◌≤◌, arith, List, [], ◌∷◌, ◌++◌, Option, none, some, ◌≡◌, refl}
use project_delta.EngineTypes.{Job}

pub data Op : Type 0 where
  push : Job → Op
  pop : Op
  steal : Op

unfoldable pub pop_back : List Job → Option Job × List Job
pop_back [] = (none, [])
pop_back (x ∷ []) = (some x, [])
pop_back (x ∷ y ∷ ys) = let (r, rest) = pop_back (y ∷ ys) in (r, x ∷ rest)

pub pop_back-append : (xs : List Job) (x : Job) → pop_back (xs ++ x ∷ []) ≡ (some x, xs)
unfolding pop_back
pop_back-append [] x = refl
pop_back-append (y ∷ []) x = refl
pop_back-append (y ∷ z ∷ zs) x = rw (pop_back-append (z ∷ zs) x)

abbrev pub pop_front : List Job → Option Job × List Job
pop_front [] = (none, [])
pop_front (x ∷ xs) = (some x, xs)

-- The job that an operation hands out, and the queue that it leaves.
abbrev pub step : Op → List Job → Option Job × List Job
step (push j) xs = (none, xs ++ j ∷ [])
step pop xs = pop_back xs
step steal xs = pop_front xs

-- By how much an operation can move the end of the queue.
abbrev pub pushes : Op → ℕ
pushes (push j) = 1
pushes pop = 0
pushes steal = 0

pub pushes-le : (o : Op) → pushes o ≤ 1
pushes-le (push j) = omega arith
pushes-le pop = omega arith
pushes-le steal = omega arith
