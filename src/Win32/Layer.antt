-- ===== src/Win32/Layer.antt =====
-- Engine/src/delta/platform/os_internal.h filled by Engine/src/delta/platform/os_win32.cpp, for a thread
-- that has no context yet: Engine::Allocate then takes its memory from the C heap.
use project_delta.Prelude.{ℕ, ◌≡◌, ◌≢◌, arith, refl, ◌==◌, if◌then◌else◌, true, false, some}
use project_delta.Build.{Build, returns, assert-true}
use project_delta.Pal.{Pal, Timer}
use project_delta.Win32.{Win32}
use project_delta.Win32.Memory.{
  memory_reserve, memory_commit, memory_release, memory_lock, memory_elevate_lock_limit,
  timer_initialize,
}
use project_delta.Win32.Threads.{
  max_semaphore_count, Process, store, fill, thread_get_current_handle, sync_create_semaphore,
}

-- A system whose heap has a few bytes left, and whose performance counter has a frequency, as every one
-- since Windows XP has.
pub record IsServing (sys : Win32) : Type 0 where
  pub gives : (w : sys.World) (size : ℕ) → ((sys.malloc w size).0 == 0) ≡ false
  pub counts : (w : sys.World) → (sys.query_performance_frequency w).0 ≡ true

module _ (sys : Win32) where
  open sys use {
    World, malloc, get_current_thread, create_semaphore, query_performance_frequency,
    query_performance_counter,
  }

  -- `::malloc`, as `new` of one word.
  abbrev pub malloc_word : Process sys → ℕ × Process sys
  malloc_word p = let (address, w) = malloc p.world 8 in (address, record p { world = w })

  abbrev pub with_world : {A : Type 0} → Process sys → A × World → A × Process sys
  with_world p (a, w) = (a, record p { world = w })

  -- A store through an address that is not nullptr.
  pub fill-some :
      (call : World → ℕ × World) (q : ℕ × Process sys)
      → (q.0 == 0) ≡ false
      → (r : ℕ × Process sys) × (fill sys call q ≡ some r)
  unfolding fill
  fill-some call q given =
      let (handle, w) = call q.1.world in
      (
        (
          if handle == 0 then 0 else q.0,
          record q.1 { word = λ a. if a == q.0 then handle else q.1.word a; world = w },
        ),
        rw given refl,
      )

  -- If the call gives a handle, too, the result is the address, and no other word is changed.
  pub fill_handle :
      (call : World → ℕ × World) (address : ℕ) (p : Process sys)
      → (address == 0) ≡ false
      → ((call p.world).0 == 0) ≡ false
      → (p' : Process sys) × (fill sys call (address, p) ≡ some (address, p'))
        × (p'.word address ≢ 0)
        × ((a : ℕ) → a ≢ address → p'.word a ≡ p.word a)
  unfolding fill
  fill_handle call address p given made =
      let (handle, w) = call p.world in
      let at : (address == address) ≡ true = ground arith in
      (
        store sys (record p { world = w }) address handle,
        rw (given, made) refl,
        rw at (ground (arith, made)),
        λ a ne. let other : (a == address) ≡ false = ground (arith, ne) in rw other refl,
      )

  pub timed :
      (build : Build) (w : World)
      → IsServing sys
      → (r : Timer × World) × (timer_initialize sys build w ≡ returns r)
  unfolding timer_initialize
  timed build w h =
      let (freq_result, freq, w1) = query_performance_frequency w in
      let (start, w2) = query_performance_counter w1 in
      (
        (record { freq = freq; base_start_time = start }, w2),
        rw (h.counts w) (rw (assert-true build true refl) refl),
      )

  module _ (build : Build) (h : IsServing sys) where
    -- Each call is the one of the Win32 layer; on such a system the last three return.
    abbrev pub layer : Pal
    layer = record {
      World = Process sys;
      memory_reserve = λ p size. with_world p (memory_reserve sys p.world size);
      memory_commit = λ p mem size. with_world p (memory_commit sys p.world mem size);
      memory_release = λ p ptr. record p { world = memory_release sys p.world ptr };
      memory_lock = λ p mem bytes. with_world p (memory_lock sys p.world mem bytes);
      memory_elevate_lock_limit =
          λ p bytes. with_world p (memory_elevate_lock_limit sys p.world bytes);
      timer_initialize = λ p. with_world p (timed build p.world h).0;
      thread_get_current_handle =
          λ p. (fill-some get_current_thread (malloc_word p) (h.gives p.world 8)).0;
      sync_create_semaphore = λ p.
          (fill-some (λ w. create_semaphore w 0 max_semaphore_count) (malloc_word p)
            (h.gives p.world 8)).0;
    }

    -- The last three fields are what the functions of the layer return.
    pub layer-timer_initialize :
        (p : Process sys)
        → timer_initialize sys build p.world
          ≡ returns ((layer.timer_initialize p).0, (layer.timer_initialize p).1.world)
    layer-timer_initialize p = (timed build p.world h).1

    pub layer-thread_get_current_handle :
        (p : Process sys)
        → thread_get_current_handle sys (malloc_word p) ≡ some (layer.thread_get_current_handle p)
    unfolding thread_get_current_handle
    layer-thread_get_current_handle p =
        (fill-some get_current_thread (malloc_word p) (h.gives p.world 8)).1

    pub layer-sync_create_semaphore :
        (p : Process sys)
        → sync_create_semaphore sys (malloc_word p) ≡ some (layer.sync_create_semaphore p)
    unfolding sync_create_semaphore
    layer-sync_create_semaphore p =
        (fill-some (λ w. create_semaphore w 0 max_semaphore_count) (malloc_word p)
          (h.gives p.world 8)).1
