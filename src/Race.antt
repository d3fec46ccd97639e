-- ===== src/Race.antt =====
-- The task queue of Engine/src/delta/core/ThreadContext.cpp under two threads at once, one access to
-- `top` or `bottom` at a time, in any order and with each access seen by both at once. The worker that
-- owns the queue is in TaskQueue_Pop, the main thread in TaskQueue_Steal or TaskQueue_Push.
pub mod Order
pub mod Fair
pub mod Popping
pub mod Stealing
pub mod Exclusive
pub mod Lost
use project_delta.Prelude.{ℕ, [], Bool, true, false, ◌≡◌, List, ◌∷◌}
use project_delta.Prelude.Int.{ℤ, pos, ◌+ℤ◌, ◌-ℤ◌, ltb_ℤ, eqb_ℤ}

-- `taken` are the indices whose jobs have been handed out, the last one first, and `written` those at
-- which a push has put a job.
pub record Shared : Type 0 where
  pub top : ℤ
  pub bottom : ℤ
  pub taken : List ℤ
  pub written : List ℤ

-- Where the owner stands, with its local variables.
pub data Owner : Type 0 where
  resting : Owner
  loaded : (b : ℤ) → Owner  -- before `bottom.store(b)`
  lowered : (b : ℤ) → Owner  -- before the load of `top`
  checked : (t b : ℤ) → Owner
  raising : (b : ℤ) → Owner  -- before `bottom.store(b + 1)`

-- One access of TaskQueue_Pop. Reading the job is put together with the step after it.
pub data Pops (m : Shared) : Owner → Shared → Owner → Type 0 where
  load : Pops m resting m (loaded (m.bottom -ℤ pos 1))
  lower : {b : ℤ} → Pops m (loaded b) (record m { bottom = b }) (lowered b)
  check : {b : ℤ} → Pops m (lowered b) m (checked m.top b)
  find_none : {t b : ℤ} → ltb_ℤ b t ≡ true → Pops m (checked t b) m (raising b)
  take :
      {t b : ℤ}
      → ltb_ℤ b t ≡ false
      → eqb_ℤ t b ≡ false
      → Pops m (checked t b) (record m { taken = b ∷ m.taken }) resting
  win :
      {t b : ℤ}
      → ltb_ℤ b t ≡ false
      → eqb_ℤ t b ≡ true
      → eqb_ℤ m.top t ≡ true
      → Pops m (checked t b) (record m { top = t +ℤ pos 1; taken = b ∷ m.taken }) (raising b)
  lose :
      {t b : ℤ}
      → ltb_ℤ b t ≡ false
      → eqb_ℤ t b ≡ true
      → eqb_ℤ m.top t ≡ false
      → Pops m (checked t b) m (raising b)
  raise : {b : ℤ} → Pops m (raising b) (record m { bottom = b +ℤ pos 1 }) resting

-- Where the main thread stands.
pub data Other : Type 0 where
  idle : Other
  got_top : (t : ℤ) → Other  -- in TaskQueue_Steal, before the load of `bottom`
  stealing : (t : ℤ) → Other  -- before the compare-exchange
  got_bottom : (b : ℤ) → Other  -- in TaskQueue_Push, before the load of `top`
  pushing : (b : ℤ) → Other  -- before `bottom.store(b + 1)`

-- One access of TaskQueue_Steal.
pub data Steals (m : Shared) : Other → Shared → Other → Type 0 where
  load_top : Steals m idle m (got_top m.top)
  see_none : {t : ℤ} → ltb_ℤ t m.bottom ≡ false → Steals m (got_top t) m idle
  see_some : {t : ℤ} → ltb_ℤ t m.bottom ≡ true → Steals m (got_top t) m (stealing t)
  steal_win :
      {t : ℤ}
      → eqb_ℤ m.top t ≡ true
      → Steals m (stealing t) (record m { top = t +ℤ pos 1; taken = t ∷ m.taken }) idle
  steal_lose : {t : ℤ} → eqb_ℤ m.top t ≡ false → Steals m (stealing t) m idle

-- One access of TaskQueue_Push into a ring of `size` places. Writing the job is put together with the
-- load of `top` before it; a job that is called at once leaves the queue alone.
pub data Pushes (size : ℤ) (m : Shared) : Other → Shared → Other → Type 0 where
  load_bottom : Pushes size m idle m (got_bottom m.bottom)
  call : {b : ℤ} → ltb_ℤ size (b -ℤ m.top) ≡ true → Pushes size m (got_bottom b) m idle
  write :
      {b : ℤ}
      → ltb_ℤ size (b -ℤ m.top) ≡ false
      → Pushes size m (got_bottom b) (record m { written = b ∷ m.written }) (pushing b)
  publish : {b : ℤ} → Pushes size m (pushing b) (record m { bottom = b +ℤ pos 1 }) idle

pub record System : Type 0 where
  pub shared : Shared
  pub owner : Owner
  pub other : Other

-- Scheduler_Sync against a worker: pops and steals.
pub data Syncs (s : System) : System → Type 0 where
  pop :
      {m : Shared} {o : Owner}
      → Pops s.shared s.owner m o
      → Syncs s (record { shared = m; owner = o; other = s.other })
  steal :
      {m : Shared} {o : Other}
      → Steals s.shared s.other m o
      → Syncs s (record { shared = m; owner = s.owner; other = o })

-- Scheduler_ProcessTaskBatch against a worker: pops and pushes.
pub data Batches (size : ℤ) (s : System) : System → Type 0 where
  pop :
      {m : Shared} {o : Owner}
      → Pops s.shared s.owner m o
      → Batches size s (record { shared = m; owner = o; other = s.other })
  push :
      {m : Shared} {o : Other}
      → Pushes size s.shared s.other m o
      → Batches size s (record { shared = m; owner = s.owner; other = o })

-- Any number of steps of a kind.
pub data Reach (R : System → System → Type 0) (s : System) : System → Type 0 where
  here : Reach R s s
  next : {t u : System} → Reach R s t → R t u → Reach R s u

-- Both threads at rest, with jobs from `lo` up to `hi`.
abbrev pub starting : ℕ → ℕ → System
starting lo hi = record {
  shared = record { top = pos lo; bottom = pos hi; taken = []; written = [] };
  owner = resting;
  other = idle;
}
