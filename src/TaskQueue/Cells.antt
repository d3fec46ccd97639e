-- ===== src/TaskQueue/Cells.antt =====
-- Where the jobs of a queue lie: the cells that an index of the ring names, and when two cells are
-- one. (`mask` of TaskQueue in Engine/src/delta/core/EngineTypes.h.)
use Prim.Native.Nat.{bit_and}
use mathlib.Core.Path.{ap₂}
use native.Mathlib.Nat.{one-le-pow, pow-le-pow_right}
use project_delta.Prelude.{ℕ, ◌+◌, ◌-◌, ◌*◌, ◌%◌, ◌^◌, ◌≤◌, ◌<◌, ◌≡◌, ◌≢◌, ◌∙◌, arith}
use project_delta.Prelude.Int.{pos}
use project_delta.Word.{u64}
use project_delta.Word.Bits.{bit_and_low}
use project_delta.EngineTypes.{Job, TaskQueue}
use project_delta.TaskQueue.{Store, and_ℤ, element, task_cell, payload_cell, put_job, get_job}

-- A ring of `2 ^ k` places whose arrays do not run over the end of memory.
pub record IsRing (q : TaskQueue) (k : ℕ) : Type 0 where
  pub few : k < 60
  pub size_is : q.size ≡ pos (2 ^ k)
  pub mask_is : q.mask ≡ pos (2 ^ k - 1)
  pub tasks_end : q.tasks + 8 * 2 ^ k ≤ 2 ^ 64
  pub payloads_end : q.payloads + 8 * 2 ^ k ≤ 2 ^ 64

pow-lt : (k : ℕ) → k < 60 → 2 ^ k ≤ 2 ^ 59
pow-lt k h = pow-le-pow_right {n = 2} (omega arith) {i = k} {j = 59} (omega arith)

and_ℤ-mask : (k i : ℕ) → k < 60 → i < 2 ^ 63 → and_ℤ (pos i) (pos (2 ^ k - 1)) ≡ pos (i % 2 ^ k)
unfolding and_ℤ
and_ℤ-mask k i hk hi = ground (arith, masked, pow-lt k hk, one-le-pow k 2 (omega arith))
  where
    masked : bit_and (u64 i) (u64 (2 ^ k - 1)) ≡ i % 2 ^ k
    masked = ap₂ bit_and (omega arith) (omega (arith, pow-lt k hk)) ∙ bit_and_low k i

element-eq : (base i : ℕ) → base + 8 * i < 2 ^ 64 → element base (pos i) ≡ base + 8 * i
unfolding element
element-eq base i h = omega arith

-- Places less than `m` apart are different places.
mod_ne : (m i b : ℕ) → i < b → b < i + m → i % m ≢ b % m
mod_ne m i b h k = grind arith

module _ {q : TaskQueue} {k : ℕ} (r : IsRing q k) (i : ℕ) (small : i < 2 ^ 63) where
  place-lt : i % 2 ^ k < 2 ^ k
  place-lt = omega (arith, one-le-pow k 2)

  pub task_cell-eq : task_cell q (pos i) ≡ q.tasks + 8 * (i % 2 ^ k)
  unfolding task_cell
  task_cell-eq =
      rw (r.mask_is, and_ℤ-mask k i r.few small)
        (element-eq q.tasks (i % 2 ^ k) (omega (arith, r, place-lt)))

  pub payload_cell-eq : payload_cell q (pos i) ≡ q.payloads + 8 * (i % 2 ^ k)
  unfolding payload_cell
  payload_cell-eq =
      rw (r.mask_is, and_ℤ-mask k i r.few small)
        (element-eq q.payloads (i % 2 ^ k) (omega (arith, r, place-lt)))

-- No task of the indices from `lo` up to `hi` lies in the cell of a payload of theirs.
abbrev pub IsApart : TaskQueue → ℕ → ℕ → Type 0
IsApart q lo hi =
    (i j : ℕ) → lo ≤ i → i < hi → lo ≤ j → j < hi → task_cell q (pos i) ≢ payload_cell q (pos j)

-- The same of the addresses, for all indices below `hi`.
abbrev pub IsClear : ℕ → ℕ → ℕ → ℕ → Type 0
IsClear tasks payloads k hi =
    (i j : ℕ) → i < hi → j < hi → tasks + 8 * (i % 2 ^ k) ≢ payloads + 8 * (j % 2 ^ k)

pub IsClear-IsApart :
    {q : TaskQueue} {k : ℕ} (r : IsRing q k) (lo hi : ℕ)
    → hi ≤ 2 ^ 63
    → IsClear q.tasks q.payloads k hi
    → IsApart q lo hi
IsClear-IsApart {q} {k} r lo hi small clear i j li ih lj jh =
    omega
      (arith, task_cell-eq r i (omega arith), payload_cell-eq r j (omega arith), clear i j ih jh)

-- Arrays that do not overlap are apart at all indices.
pub IsClear-separate :
    (tasks payloads k hi : ℕ) → tasks + 8 * 2 ^ k ≤ payloads → IsClear tasks payloads k hi
IsClear-separate tasks payloads k hi separate i j ih jh = omega (arith, one-le-pow k 2)

-- Writing a job leaves the other jobs of the ring alone, and is read back.
module _ {q : TaskQueue} {k : ℕ} (r : IsRing q k) (lo b : ℕ) (small : b < 2 ^ 63)
    (window : b < lo + 2 ^ k) (apart : IsApart q lo (b + 1)) (j : Job) (s : Store) where
  pub get_job-put_job_ne :
      (i : ℕ) → lo ≤ i → i < b → get_job q (pos i) (put_job q (pos b) j s) ≡ get_job q (pos i) s
  get_job-put_job_ne i li ib = ground (
    arith,
    task_cell-eq r i (omega arith),
    task_cell-eq r b small,
    payload_cell-eq r i (omega arith),
    payload_cell-eq r b small,
    mod_ne (2 ^ k) i b ib (omega arith),
    apart i b li (omega arith) (omega arith) (omega arith),
    apart b i (omega arith) (omega arith) li (omega arith),
  )

  pub get_job-put_job_self : lo ≤ b → get_job q (pos b) (put_job q (pos b) j s) ≡ j
  get_job-put_job_self lb = ground (arith, apart b b lb (omega arith) lb (omega arith))
