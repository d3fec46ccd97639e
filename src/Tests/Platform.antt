-- ===== src/Tests/Platform.antt =====
-- Platform layers to run the definitions against.
use project_delta.Prelude.{ℕ, ◌+◌, ◌^◌, Bool, true}
use project_delta.Prelude.Int.{pos}
use project_delta.Pal.{Pal}

-- A system that does what it is asked, and counts the bytes that it has committed. `locks` says
-- whether memory can be locked.
abbrev pub counting : Bool → Pal
counting locks = record {
  World = ℕ;
  memory_reserve = λ w n. (2 ^ 40, w);
  memory_commit = λ w p n. (p, w + n);
  memory_release = λ w p. w;
  memory_lock = λ w p n. (locks, w);
  memory_elevate_lock_limit = λ w n. (true, w);
  timer_initialize = λ w. (record { freq = pos 10000000; base_start_time = pos w }, w);
  thread_get_current_handle = λ w. (77, w);
  sync_create_semaphore = λ w. (88, w);
}
