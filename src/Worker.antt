-- ===== src/Worker.antt =====
-- WorkerProc of Engine/src/delta/core/Worker.cpp beside the main thread in Scheduler_ProcessTaskBatch and
-- Scheduler_Sync of Engine/src/delta/core/ThreadContext.cpp: one worker, its queue and its semaphore, in
-- steps that come in any order. A call of the queue is one step here, and the queue is a list: these are
-- the runs in which no two calls of the queue overlap and its arrays are long enough (Race has the calls
-- that overlap, TaskQueue the arrays). The reference that WorkerProc binds before its loop is
-- `dep_counter_ptr`, which InitializeQueue leaves null; an access through null ends the process.
pub mod Asleep
pub mod Faults
pub mod Init
pub mod Room
pub mod Placed
pub mod Listed
pub mod Many
use project_delta.Prelude.{
  ℕ, zero, suc, ◌+◌, ◌≡◌, ltb, ◌==◌, if◌then◌else◌, Bool, true, false, List, [], ◌∷◌, ◌++◌,
}
use project_delta.Word.{u32, sub32}
use project_delta.EngineTypes.{Job}
use project_delta.Win32.Threads.{max_semaphore_count}

-- `handed` are the jobs that the main thread has pushed, and `called` those that have been executed.
pub record Shared : Type 0 where
  pub jobs : List Job
  pub is_asleep : Bool
  pub should_close : Bool
  pub permits : ℕ
  pub counter : ℕ
  pub dep_counter_ptr : ℕ  -- the address of the main thread's counter, or null
  pub handed : List Job
  pub called : List Job

-- Where the worker stands.
pub data Place : Type 0 where
  testing : Place  -- at the condition of the loop
  popping : Place
  running : (j : Job) → Place
  counting : Place
  resetting : Place  -- before ThreadArena_Reset
  falling : Place  -- before `isAsleep.store(true)`
  retesting : Place  -- at the condition of the second `if`
  waiting : Place
  waking : Place  -- before `isAsleep.store(false)`
  ended : Place
  faulted : Place  -- after an access or a call through null

-- A step of WorkerProc.
pub data Works (m : Shared) : Place → Shared → Place → Type 0 where
  go_on : m.should_close ≡ false → Works m testing m popping
  close : m.should_close ≡ true → Works m testing m ended
  pop :
      {j : Job} {js : List Job}
      → m.jobs ≡ js ++ (j ∷ [])
      → Works m popping (record m { jobs = js }) (running j)
  pop_none : m.jobs ≡ [] → Works m popping m resetting
  run :
      {j : Job}
      → (j.task == 0) ≡ false
      → Works m (running j) (record m { called = j ∷ m.called }) counting
  run_null : {j : Job} → (j.task == 0) ≡ true → Works m (running j) m faulted
  count :
      (m.dep_counter_ptr == 0) ≡ false
      → Works m counting (record m { counter = sub32 m.counter 1 }) testing
  count_null : (m.dep_counter_ptr == 0) ≡ true → Works m counting m faulted
  reset : Works m resetting m falling
  fall : Works m falling (record m { is_asleep = true }) retesting
  stay : m.should_close ≡ false → Works m retesting m waiting
  leave : m.should_close ≡ true → Works m retesting m waking
  wait : {n : ℕ} → m.permits ≡ suc n → Works m waiting (record m { permits = n }) waking
  wake : Works m waking (record m { is_asleep = false }) testing

-- Where the main thread stands.
pub data Main : Type 0 where
  ready : Main
  looking : Main  -- after TaskQueue_Push, before `isAsleep.load()`

-- A step of the main thread: Scheduler_ProcessTaskBatch sets the counter and pushes, Scheduler_Sync
-- steals. A task that is null ends the process, so that it is not called.
pub data Drives (m : Shared) : Main → Shared → Main → Type 0 where
  begin : (length : ℕ) → Drives m ready (record m { counter = u32 length }) ready
  push :
      (j : Job)
      → Drives m ready (record m { jobs = m.jobs ++ (j ∷ []); handed = j ∷ m.handed }) looking
  signal :
      m.is_asleep ≡ true
      → Drives m looking
          (record m {
            permits = if ltb m.permits max_semaphore_count then suc m.permits else m.permits;
          })
          ready
  skip : m.is_asleep ≡ false → Drives m looking m ready
  steal :
      {j : Job} {js : List Job}
      → m.jobs ≡ j ∷ js
      → (j.task == 0) ≡ false
      → Drives m ready (record m { jobs = js; called = j ∷ m.called }) ready
  steal_none : m.jobs ≡ [] → Drives m ready m ready

pub record System : Type 0 where
  pub shared : Shared
  pub place : Place
  pub main_place : Main

-- The states that a new worker and the main thread come to.
pub data Reach (s : System) : System → Type 0 where
  here : Reach s s
  work :
      {t : System} {m : Shared} {p : Place}
      → Reach s t
      → Works t.shared t.place m p
      → Reach s (record { shared = m; place = p; main_place = t.main_place })
  drive :
      {t : System} {m : Shared} {x : Main}
      → Reach s t
      → Drives t.shared t.main_place m x
      → Reach s (record { shared = m; place = t.place; main_place = x })

-- As ThreadContext_Initialize leaves the context.
abbrev pub fresh : System
fresh = record {
  shared = record {
    jobs = [];
    is_asleep = false;
    should_close = false;
    permits = 0;
    counter = 0;
    dep_counter_ptr = 0;
    handed = [];
    called = [];
  };
  place = testing;
  main_place = ready;
}
