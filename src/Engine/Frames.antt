-- ===== src/Engine/Frames.antt =====
-- Engine::Update (Engine/src/delta/core/engine.cpp) between the requests of a game for transient memory.
use mathlib.Core.Path.{subst}
use project_delta.Prelude.{
  ℕ, suc, ◌+◌, ◌*◌, ◌≤◌, ◌≡◌, ◌∙◌, refl, sym, ap, arith, List, [], ◌∷◌, length, ◌-◌,
}
use project_delta.Build.{Build}
use project_delta.Build.Ran.{Ran, ran, ◌>>=◌}
use project_delta.Arena.{thread_arena_reset}
use project_delta.Arena.Fast.{HasRoom}
use project_delta.ThreadContext.{Globals, generic, set_generic}
use project_delta.Engine.{transient}
use project_delta.Engine.Session.{Session, reset_current, engine_update}
use project_delta.Win32.{Win32}
use project_delta.Win32.Layer.{IsServing}
use project_delta.Win32.Threads.{sync_sleep}
use project_delta.Worker.Init.{Workers, new}
use project_delta.Worker.Room.{HasArenas, scratch_of, new-transient}

-- In each frame a request for so many words; every request of the frames is below a bound.
abbrev pub AllUpTo : ℕ → List ℕ → Type 0
AllUpTo bound [] = Unit {0}
AllUpTo bound (k ∷ ks) = (k ≤ bound) × AllUpTo bound ks

abbrev pub AllAt : ℕ → List ℕ → Type 0
AllAt address [] = Unit {0}
AllAt address (p ∷ ps) = (p ≡ address) × AllAt address ps

module _ (sys : Win32) (build : Build) (h : IsServing sys) where
  -- A request and an Update for each size, and the blocks that are got.
  unfoldable pub run_frames : List ℕ → Session sys build h → Ran (List ℕ × Session sys build h)
  run_frames [] s = ran ([], s)
  run_frames (words ∷ rest) s = do
    (p, workers) ← new sys build h transient (words * 8) s.workers
    s' ← engine_update sys build h (record s { workers = workers })
    (ps, s'') ← run_frames rest s'
    ran (p ∷ ps, s'')

  frame :
      (words room storage : ℕ) (s : Session sys build h)
      → words ≤ room
      → HasArenas storage room s.workers.globals
      → (scratch_of s.workers.globals).offset ≡ 0
      → (p : ℕ) × (workers : Workers sys) × (s' : Session sys build h) × (new sys build h transient
            (words * 8)
            s.workers
          ≡ ran (p, workers))
        × (engine_update sys build h (record s { workers = workers }) ≡ ran s')
        × (p ≡ (scratch_of s.workers.globals).backing_memory)
        × (scratch_of s'.workers.globals ≡ scratch_of s.workers.globals)
        × HasArenas storage room s'.workers.globals
  unfolding engine_update reset_current generic set_generic thread_arena_reset
  frame words room storage s le a start =
      let split : room ≡ words + (room - words) = omega (arith, le) in
      let (p, workers, e, given, a1, at, reset, _, _, same) =
        new-transient sys build h words (room - words) storage s.workers
          (subst (λ r. HasArenas storage r s.workers.globals) split a) in
      let back : thread_arena_reset (scratch_of workers.globals) ≡ scratch_of s.workers.globals =
        reset ∙ (λ i. record (scratch_of s.workers.globals) { offset = sym start i }) in
      let g = workers.globals in
      let c = generic g.contexts 0 in
      let g' : Globals = record g {
        contexts =
            set_generic g.contexts 0
              (record c { transient_arena = thread_arena_reset c.transient_arena });
      } in
      let slept : Globals → Session sys build h = λ g. record s {
        workers = record workers { process = sync_sleep sys 100 workers.process; globals = g };
      } in
      (
        p,
        workers,
        slept g',
        e,
        ap (λ o. reset_current sys build h o g >>= λ g. ran (slept g)) a1.on,
        omega (arith, at, start),
        back,
        record {
          on = a1.on;
          type_is = a1.type_is;
          index_is = a1.index_is;
          storage = a1.storage;
          scratch_room = subst (λ a. HasRoom a room) (sym back) a.scratch_room;
          apart = a1.apart;
        },
      )

  -- In a running engine whose transient arena is empty, any number of frames, in each of which the main
  -- thread asks for up to `room` words, all of which the arena has, return in every build, and every
  -- frame gets its block at the start of the arena: Engine::Update gives back what the frame took.
  pub run_frames-AllAt :
      (sizes : List ℕ) (room storage : ℕ) (s : Session sys build h)
      → AllUpTo room sizes
      → HasArenas storage room s.workers.globals
      → (scratch_of s.workers.globals).offset ≡ 0
      → (ps : List ℕ) × (s' : Session sys build h) × (run_frames sizes s ≡ ran (ps, s'))
        × AllAt (scratch_of s.workers.globals).backing_memory ps
        × (length ps ≡ length sizes)
        × (scratch_of s'.workers.globals ≡ scratch_of s.workers.globals)
        × HasArenas storage room s'.workers.globals
  unfolding run_frames
  run_frames-AllAt [] room storage s few a start = ([], s, refl, tt, refl, refl, a)
  run_frames-AllAt (words ∷ rest) room storage s (le, few) a start =
      let (p, workers, s1, e, updated, at, same, a1) = frame words room storage s le a start in
      let (ps, s2, e2, all, long, same2, a2) =
        run_frames-AllAt rest room storage s1 few a1 (ap (λ a. a.offset) same ∙ start) in
      (
        p ∷ ps,
        s2,
        rw (e, updated, e2) refl,
        (at, subst (λ a. AllAt a.backing_memory ps) same all),
        ap suc long,
        same2 ∙ same,
        a2,
      )
