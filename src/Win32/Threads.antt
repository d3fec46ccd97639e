-- ===== src/Win32/Threads.antt =====
-- The threads and semaphores of Engine/src/delta/platform/os_win32.cpp. A Thread and a Semaphore are one
-- word, the handle; a ThreadHandle and a SemaphoreHandle are the addresses of such words.
use project_delta.Prelude.{
  ℕ, zero, suc, ◌+◌, ◌*◌, ◌^◌, ltb, ◌==◌, if◌then◌else◌, Option, none, some, List, [], ◌∷◌,
}
use project_delta.Word.{u32}
use project_delta.Win32.{Win32}

abbrev pub max_semaphore_count : ℕ
max_semaphore_count = 1000000

module _ (sys : Win32) where
  open sys use {
    World, get_current_thread, create_thread, set_thread_affinity_mask, wait_for_single_object,
    sleep, get_current_thread_id, get_thread_id, wait_for_multiple_objects, close_handle,
    create_semaphore, release_semaphore,
  }

  -- The words that the process has written, by their addresses, and the system.
  pub record Process : Type 0 where
    pub word : ℕ → ℕ
    pub world : World

  abbrev pub store : Process → ℕ → ℕ → Process
  store p address value = record p { word = λ a. if a == address then value else p.word a }

  -- The handle that a call gives is stored in a new word, whose address is returned, or nullptr if the
  -- handle is 0. A store through nullptr is undefined.
  unfoldable pub fill : (World → ℕ × World) → ℕ × Process → Option (ℕ × Process)
  fill call (address, p) =
      let (handle, w) = call p.world in
      let p' = store (record p { world = w }) address handle in
      if address == 0 then none else some ((if handle == 0 then 0 else address), p')

  -- Each of these is given what its `new(PERSISTENT)` of one word has returned, and the process after it.
  unfoldable pub thread_get_current_handle : ℕ × Process → Option (ℕ × Process)
  thread_get_current_handle = fill get_current_thread

  unfoldable pub thread_create : ℕ → ℕ × Process → Option (ℕ × Process)
  thread_create create_info = fill (λ w. create_thread w create_info)

  unfoldable pub sync_create_semaphore : ℕ × Process → Option (ℕ × Process)
  sync_create_semaphore = fill (λ w. create_semaphore w 0 max_semaphore_count)

  -- A shift of a 64-bit word by 64 or more is undefined.
  unfoldable pub affinity_mask : ℕ → Option ℕ
  affinity_mask core_index =
      let logical_core = u32 (core_index * 2) in
      if ltb logical_core 64 then some (2 ^ logical_core) else none

  unfoldable pub set_affinity : ℕ → Option ℕ → Process → Option Process
  set_affinity thread none p = none
  set_affinity thread (some mask) p =
      some (record p { world = set_thread_affinity_mask p.world (p.word thread) mask })

  unfoldable pub thread_assign_physical_core : ℕ → ℕ → Process → Option Process
  thread_assign_physical_core thread core_index = set_affinity thread (affinity_mask core_index)

  unfoldable pub thread_join : ℕ → Process → Process
  thread_join thread p = if thread == 0 then p else record p {
    world = close_handle (wait_for_single_object p.world (p.word thread)) (p.word thread);
  }

  -- The words of an array of 8 bytes each.
  unfoldable pub words_at : ℕ → ℕ → Process → List ℕ
  words_at zero address p = []
  words_at (suc count) address p = p.word address ∷ words_at count (address + 8) p

  -- The array of pointers is passed on as if it held handles.
  unfoldable pub thread_join_multiple : ℕ → ℕ → Process → Process
  thread_join_multiple threads count p =
      if threads == 0
      then p
      else record p { world = wait_for_multiple_objects p.world (words_at count threads p) }

  unfoldable pub sync_destroy_semaphore : ℕ → Process → Process
  sync_destroy_semaphore sem p =
      if sem == 0 then p else record p { world = close_handle p.world (p.word sem) }

  unfoldable pub sync_signal_semaphore : ℕ → Process → Process
  sync_signal_semaphore handle p = record p { world = release_semaphore p.world (p.word handle) 1 }

  unfoldable pub sync_wait_semaphore : ℕ → Process → Process
  sync_wait_semaphore handle p = record p { world = wait_for_single_object p.world (p.word handle) }

  unfoldable pub sync_sleep : ℕ → Process → Process
  sync_sleep milliseconds p = record p { world = sleep p.world milliseconds }

  unfoldable pub thread_get_current_id : Process → ℕ
  thread_get_current_id p = get_current_thread_id p.world

  unfoldable pub thread_get_id : ℕ → Process → ℕ
  thread_get_id thread p = get_thread_id p.world (p.word thread)

  -- DeltaThreadProc: the function that the new thread calls, and its argument.
  unfoldable pub delta_thread_proc : ℕ → Process → ℕ × ℕ
  delta_thread_proc create_info p = (p.word create_info, p.word (create_info + 8))
