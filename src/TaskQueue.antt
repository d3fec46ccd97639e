-- ===== src/TaskQueue.antt =====
-- The task queue of Engine/src/delta/core/ThreadContext.cpp, one call at a time: InitializeQueue,
-- TaskQueue_Push, TaskQueue_Pop and TaskQueue_Steal. The two arrays lie in memory as words of 8 bytes,
-- each named by the address of its first byte.
pub mod Cells
pub mod Deque
pub mod Contents
pub mod Ends
pub mod Refine
pub mod Run
pub mod Full
pub mod Init
use Prim.Native.Nat.{bit_and}
use project_delta.Prelude.{
  ℕ, ◌+◌, ◌-◌, ◌*◌, ◌/◌, ◌^◌, ◌%◌, ◌==◌, ltb, if◌then◌else◌, Bool, true, false, not, List, [], ◌∷◌,
  ◌++◌, Option, none, some, ◌≡◌, refl,
}
use project_delta.Prelude.Int.{ℤ, pos, negsuc, ◌+ℤ◌, ◌-ℤ◌, ltb_ℤ, eqb_ℤ}
use project_delta.Word.{u64, add64, mul64}
use project_delta.Build.{Build, Outcome, returns, ◌>>=◌, ◌>>◌, assert}
use project_delta.Pal.{Pal}
use project_delta.EngineTypes.{ThreadPageCoordinator, Job, TaskQueue}

-- The memory that the queues lie in, and the calls `task(payload)` made so far, the last one last.
pub record Store : Type 0 where
  pub word : ℕ → ℕ
  pub calls : List Job

abbrev pub write : (ℕ → ℕ) → ℕ → ℕ → ℕ → ℕ
write m a v b = if a == b then v else m b

-- An int64_t as its bits, and back.
abbrev pub bits64 : ℤ → ℕ
bits64 (pos n) = u64 n
bits64 (negsuc n) = 2 ^ 64 - 1 - u64 n

abbrev pub signed64 : ℕ → ℤ
signed64 n = if ltb n (2 ^ 63) then pos n else negsuc (2 ^ 64 - 1 - n)

-- `&` on int64_t.
unfoldable pub and_ℤ : ℤ → ℤ → ℤ
and_ℤ a b = signed64 (bit_and (bits64 a) (bits64 b))

-- `base[ix]`, for an array of words.
unfoldable pub element : ℕ → ℤ → ℕ
element base ix = add64 base (mul64 (bits64 ix) 8)

-- `ix & mask` of an index.
unfoldable pub task_cell : TaskQueue → ℤ → ℕ
unfolding element and_ℤ
task_cell q b = element q.tasks (and_ℤ b q.mask)

unfoldable pub payload_cell : TaskQueue → ℤ → ℕ
unfolding element and_ℤ
payload_cell q b = element q.payloads (and_ℤ b q.mask)

abbrev pub put_job : TaskQueue → ℤ → Job → Store → Store
put_job q b j s = record s {
  word = write (write s.word (task_cell q b) j.task) (payload_cell q b) j.payload;
}

abbrev pub get_job : TaskQueue → ℤ → Store → Job
get_job q b s = record { task = s.word (task_cell q b); payload = s.word (payload_cell q b) }

-- `task(payload)`
abbrev pub call_job : Job → Store → Store
call_job j s = record s { calls = s.calls ++ j ∷ [] }

-- TaskQueue_Push
unfoldable pub task_queue_push : TaskQueue → Job → Store → TaskQueue × Store
unfolding ◌+ℤ◌ ◌-ℤ◌
task_queue_push q j s =
    let b = q.bottom in
    let t = q.top in
    if ltb_ℤ q.size (b -ℤ t)
    then (q, call_job j s)
    else (record q { bottom = b +ℤ pos 1 }, put_job q b j s)

-- `top.compare_exchange_strong(expected, desired)`
unfoldable pub exchange_top : TaskQueue → ℤ → ℤ → Bool × TaskQueue
exchange_top q expected desired =
    if eqb_ℤ q.top expected then (true, record q { top = desired }) else (false, q)

-- TaskQueue_Pop from the test `t == b` on, with `bottom` already at `b`.
unfoldable pub take_bottom : TaskQueue → ℤ → ℤ → Job → Option Job × TaskQueue
unfolding ◌+ℤ◌ exchange_top
take_bottom q t b job =
    let (won, q') = exchange_top q t (t +ℤ pos 1) in
    if eqb_ℤ t b
    then (if won then some job else none, record q' { bottom = b +ℤ pos 1 })
    else (some job, q)

-- TaskQueue_Pop, with no other thread at work. `none` is a return of false.
unfoldable pub task_queue_pop : TaskQueue → Store → Option Job × TaskQueue
unfolding ◌+ℤ◌ ◌-ℤ◌
task_queue_pop q s =
    let b = q.bottom -ℤ pos 1 in
    let q' = record q { bottom = b } in
    let t = q'.top in
    if ltb_ℤ b t
    then (none, record q' { bottom = b +ℤ pos 1 })
    else take_bottom q' t b (get_job q' b s)

-- TaskQueue_Steal, with no other thread at work.
unfoldable pub task_queue_steal : TaskQueue → Store → Option Job × TaskQueue
unfolding ◌+ℤ◌ exchange_top
task_queue_steal q s =
    let t = q.top in
    let b = q.bottom in
    if not (ltb_ℤ t b)
    then (none, q)
    else let job = get_job q t s in
      let (won, q') = exchange_top q t (t +ℤ pos 1) in (if won then some job else none, q')

-- `FIELD_SIZE`: sizeof(task_t) + sizeof(payload_t).
abbrev pub field_size : ℕ
field_size = 8 + 8

module _ (pal : Pal) where
  open pal use {World, memory_commit}

  pub record QueueInit : Type 0 where
    pub queue : TaskQueue
    pub world : World

  -- InitializeQueue. The argument `depCounter` is not used: `depCounterPtr` keeps what `old` has.
  unfoldable pub initialize_queue :
      Build → ThreadPageCoordinator → TaskQueue → ℕ → ℕ → ℕ → World → Outcome QueueInit
  unfolding ◌-ℤ◌
  initialize_queue build page_coord old dep_counter offset mem_size w = do
    let size = mem_size / field_size
    let target = add64 page_coord.virtual_address_base offset
    let (p, w') = memory_commit w target mem_size
    assert build (not (p == 0))
    returns (record {
      queue = record old {
        top = pos 0;
        bottom = pos 0;
        size = signed64 size;
        mask = signed64 size -ℤ pos 1;
        tasks = target;
        payloads = add64 target (bits64 (signed64 size));
      };
      world = w';
    })
