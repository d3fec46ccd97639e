-- ===== src/Worker/Room.antt =====
-- The operators `new` (Engine/include/delta/core/memory.h) in the main thread, while its arenas have room.
use project_delta.Prelude.{ℕ, ◌+◌, ◌*◌, ◌≤◌, ◌≡◌, ◌∙◌, refl, ap, arith, ◌==◌, true, false, some}
use project_delta.Build.{Build}
use project_delta.Build.Ran.{ran}
use project_delta.EngineTypes.{ThreadArena, main}
use project_delta.Arena.{thread_arena_reset}
use project_delta.Arena.Fast.{HasRoom, thread_arena_allocate_fast}
use project_delta.ThreadContext.{Globals, generic, set_generic, is_main_thread}
use project_delta.ThreadContext.Current.{same_type, main_at}
use project_delta.Engine.{transient, persistent, allocate_in}
use project_delta.Engine.Heap.{allocate-eq}
use project_delta.Win32.{Win32}
use project_delta.Win32.Layer.{IsServing, layer}
use project_delta.Worker.Init.{Workers, c_heap, new}

-- The main thread's transient arena.
abbrev pub scratch_of : Globals → ThreadArena
scratch_of g = g.contexts.main_context.generic.transient_arena

-- The next address of its persistent storage.
abbrev pub next_of : Globals → ℕ
next_of g =
    g.contexts.main_context.persistent_storage.backing_memory
    + g.contexts.main_context.persistent_storage.offset

-- The main thread is at work, with so many words in its persistent and its transient arena, and the
-- first lies behind the second.
pub record HasArenas (words scratch : ℕ) (g : Globals) : Type 0 where
  pub on : g.current ≡ some 0
  pub type_is : g.contexts.main_context.generic.type ≡ main
  pub index_is : g.contexts.main_context.generic.thread_ix ≡ 0
  pub storage : HasRoom g.contexts.main_context.persistent_storage words
  pub scratch_room : HasRoom g.contexts.main_context.generic.transient_arena scratch
  pub apart :
      (scratch_of g).backing_memory + (scratch_of g).max_capacity
      ≤ g.contexts.main_context.persistent_storage.backing_memory

pub HasArenas-is_main_thread :
    (words scratch : ℕ) (g : Globals) → HasArenas words scratch g → is_main_thread g ≡ true
unfolding generic
HasArenas-is_main_thread words scratch g h = main_at g 0 h.on ∙ ap (λ t. same_type t main) h.type_is

module _ (sys : Win32) (build : Build) (h : IsServing sys) where
  -- What `new` leaves as it was.
  pub record IsSame (s s' : Workers sys) : Type 0 where
    pub globals : s'.globals ≡ record s.globals { contexts = s'.globals.contexts }
    pub workers : s'.globals.contexts.worker_context ≡ s.globals.contexts.worker_context
    pub count : s'.s_worker_count ≡ s.s_worker_count
    pub threads : s'.s_threads ≡ s.s_threads

  pub new-persistent :
      (words rest scratch : ℕ) (s : Workers sys)
      → HasArenas (words + rest) scratch s.globals
      → (p : ℕ) × (s' : Workers sys) × (new sys build h persistent (words * 8) s ≡ ran (p, s'))
        × ((p == 0) ≡ false)
        × HasArenas rest scratch s'.globals
        × (p ≡ next_of s.globals)
        × (next_of s'.globals ≡ next_of s.globals + words * 8)
        × (scratch_of s'.globals ≡ scratch_of s.globals)
        × (s'.process ≡ s.process)
        × IsSame s s'
  unfolding new allocate_in thread_arena_reset
  new-persistent words rest scratch s a =
      let pal = layer sys build h in
      let c = s.globals.contexts.main_context in
      let (p, arena, e, at, room, reset, moved) =
        thread_arena_allocate_fast pal build c.generic.page_coordinator.page_size
          c.persistent_storage words rest s.process a.storage in
      let served =
        allocate-eq pal (c_heap sys build h) s.globals build 0 (words * 8) 8 persistent s.process
          a.on in
      (
        p,
        record s {
          globals = record s.globals {
            contexts = record s.globals.contexts {
              main_context = record c { persistent_storage = arena };
            };
          };
        },
        rw (served, HasArenas-is_main_thread (words + rest) scratch s.globals a, e) refl,
        ground (arith, at, a.storage.somewhere),
        record {
          on = a.on;
          type_is = a.type_is;
          index_is = a.index_is;
          storage = room;
          scratch_room = a.scratch_room;
          apart = omega (arith, a.apart, ap (λ x. x.backing_memory) reset);
        },
        at,
        moved,
        refl,
        refl,
        record { globals = refl; workers = refl; count = refl; threads = refl },
      )

  pub new-transient :
      (words rest storage : ℕ) (s : Workers sys)
      → HasArenas storage (words + rest) s.globals
      → (p : ℕ) × (s' : Workers sys) × (new sys build h transient (words * 8) s ≡ ran (p, s'))
        × ((p == 0) ≡ false)
        × HasArenas storage rest s'.globals
        × (p ≡ (scratch_of s.globals).backing_memory + (scratch_of s.globals).offset)
        × (thread_arena_reset (scratch_of s'.globals) ≡ thread_arena_reset (scratch_of s.globals))
        × (next_of s'.globals ≡ next_of s.globals)
        × (s'.process ≡ s.process)
        × IsSame s s'
  unfolding new allocate_in generic set_generic thread_arena_reset
  new-transient words rest storage s a =
      let pal = layer sys build h in
      let c = s.globals.contexts.main_context in
      let (p, arena, e, at, room, reset, moved) =
        thread_arena_allocate_fast pal build c.generic.page_coordinator.page_size
          c.generic.transient_arena words rest s.process a.scratch_room in
      let served =
        allocate-eq pal (c_heap sys build h) s.globals build 0 (words * 8) 8 transient s.process
          a.on in
      (
        p,
        record s {
          globals = record s.globals {
            contexts = record s.globals.contexts {
              main_context = record c { generic = record c.generic { transient_arena = arena } };
            };
          };
        },
        rw (served, e) refl,
        ground (arith, at, a.scratch_room.somewhere),
        record {
          on = a.on;
          type_is = a.type_is;
          index_is = a.index_is;
          storage = a.storage;
          scratch_room = room;
          apart =
              omega
                (arith, a.apart, ap (λ x. x.backing_memory) reset, ap (λ x. x.max_capacity) reset);
        },
        at,
        reset,
        refl,
        refl,
        record { globals = refl; workers = refl; count = refl; threads = refl },
      )
