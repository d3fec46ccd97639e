-- ===== src/Engine.antt =====
-- Allocate and Free of Engine/src/delta/core/engine.cpp, behind `operator new` and `operator delete` of
-- Engine/include/delta/core/memory.h. The C heap is a parameter.
pub mod Heap
pub mod Slab
pub mod Session
pub mod Started
pub mod Reached
pub mod Running
pub mod Stopped
pub mod Batch
pub mod Frames
pub mod Calm
pub mod Playing
pub mod Life
pub mod Reused
use project_delta.Prelude.{ℕ, Bool, true, false, if◌then◌else◌, Option, none, some}
use project_delta.Build.{Build, Outcome, returns, aborted, assert, ◌>>=◌, ◌>>◌}
use project_delta.Pal.{Pal}
use project_delta.EngineTypes.{ThreadArena}
use project_delta.Arena.{Allocated, thread_arena_allocate}
use project_delta.ThreadContext.{
  Contexts, Globals, generic, set_generic, is_custom_allocated, is_main_thread,
}

pub data AllocationType : Type 0 where
  transient persistent : AllocationType

module _ (pal : Pal) where
  open pal use {World}

  -- `::malloc` and `::free`
  pub record CHeap : Type 0 where
    pub malloc : World → ℕ → ℕ × World
    pub free : World → ℕ → World

  pub record Result : Type 0 where
    pub ptr : ℕ
    pub globals : Globals
    pub world : World

  module _ (heap : CHeap) (build : Build) where
    -- Allocate in a thread whose context is that of index `i`. The size of a page is the one in
    -- that context's page coordinator.
    unfoldable pub allocate_in : ℕ → AllocationType → Globals → ℕ → ℕ → World → Outcome Result
    allocate_in i transient g size alignment w = do
      let c = generic g.contexts i
      r ←
          thread_arena_allocate pal build c.page_coordinator.page_size c.transient_arena size
            alignment w
      returns (record {
        ptr = r.ptr;
        globals = record g {
          contexts = set_generic g.contexts i (record c { transient_arena = r.arena });
        };
        world = r.world;
      })
    allocate_in i persistent g size alignment w =
        if is_main_thread g
        then (do
          let c = g.contexts.main_context
          r ←
              thread_arena_allocate pal build c.generic.page_coordinator.page_size
                c.persistent_storage size alignment w
          returns (record {
            ptr = r.ptr;
            globals = record g {
              contexts = record g.contexts {
                main_context = record c { persistent_storage = r.arena };
              };
            };
            world = r.world;
          }))
        else (do assert build false; returns (record { ptr = 0; globals = g; world = w }))

    -- `none` is a thread without a context.
    abbrev pub allocate_for : Option ℕ → AllocationType → Globals → ℕ → ℕ → World → Outcome Result
    allocate_for none type g size alignment w =
        let (p, w') = heap.malloc w size in returns (record { ptr = p; globals = g; world = w' })
    allocate_for (some i) type g size alignment w = allocate_in i type g size alignment w

    unfoldable pub allocate : ℕ → AllocationType → ℕ → Globals → World → Outcome Result
    allocate size type alignment g w = allocate_for g.current type g size alignment w

  -- Free
  unfoldable pub free : CHeap → Globals → ℕ → World → World
  free heap g ptr w = if is_custom_allocated g ptr then w else heap.free w ptr
