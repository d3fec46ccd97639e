-- ===== src/Tests/Sleep.antt =====
-- Two jobs that a worker sleeps on, and one after which it stops (Engine/src/delta/core/Worker.cpp).
use project_delta.Prelude.{ℕ, false, [], ◌∷◌}
use project_delta.EngineTypes.{Job}
use project_delta.Worker.{Place, ready, System}

abbrev job : ℕ → Job
job n = record { task = n; payload = 8 }

abbrev after_one : Place → System
after_one place = record {
  shared = record {
    jobs = [];
    is_asleep = false;
    should_close = false;
    permits = 0;
    counter = 0;
    dep_counter_ptr = 0;
    handed = job 1 ∷ [];
    called = job 1 ∷ [];
  };
  place = place;
  main_place = ready;
}
