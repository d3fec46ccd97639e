-- ===== src/Worker/Asleep.antt =====
-- A push between the worker's last look at its queue and its sleep (Engine/src/delta/core/Worker.cpp).
use project_delta.Prelude.{Bool, false, List, []}
use project_delta.EngineTypes.{Job}
use project_delta.Worker.{Place, ready, System}

abbrev late : Place → Bool → List Job → List Job → System
late place asleep jobs handed = record {
  shared = record {
    jobs = jobs;
    is_asleep = asleep;
    should_close = false;
    permits = 0;
    counter = 0;
    dep_counter_ptr = 0;
    handed = handed;
    called = [];
  };
  place = place;
  main_place = ready;
}
