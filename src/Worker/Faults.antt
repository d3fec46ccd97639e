-- ===== src/Worker/Faults.antt =====
-- The counter behind a null pointer in WorkerProc (Engine/src/delta/core/Worker.cpp).
use project_delta.Prelude.{◌≡◌, ◌==◌, true, false}
use project_delta.Worker.{Shared, Place, counting, ended, faulted}

-- Behind the call of a job: before the counter is lowered, or stopped there.
abbrev pub IsBehind : Place → Type 0
IsBehind counting = Unit {0}
IsBehind faulted = Unit {0}
IsBehind _ = ⊥

abbrev IsAlive : Place → Type 0
IsAlive ended = ⊥
IsAlive _ = Unit {0}

-- What no step changes while the pointer is null and nobody asks the worker to close.
record IsUnset (m : Shared) : Type 0 where
  unset : (m.dep_counter_ptr == 0) ≡ true
  open_still : m.should_close ≡ false
