-- ===== src/Engine/Playing.antt =====
-- A running engine (Engine/src/delta/core/engine.cpp) between the calls of a game.
use mathlib.Core.Path.{subst}
use project_delta.Prelude.{ℕ, ◌+◌, ◌*◌, ◌^◌, ◌≤◌, ◌≡◌, ◌∙◌, refl, sym, ap, arith}
use project_delta.Build.{Build}
use project_delta.Build.Ran.{ran, ◌>>=◌}
use project_delta.EngineTypes.{ThreadArena}
use project_delta.Arena.{thread_arena_reset}
use project_delta.Arena.Fast.{HasRoom, thread_arena_reset-HasRoom}
use project_delta.ThreadContext.{Globals, generic, set_generic}
use project_delta.Engine.{transient}
use project_delta.Engine.Session.{Session, reset_current, engine_update}
use project_delta.Engine.Running.{IsRunning}
use project_delta.Engine.Calm.{IsCalm, calm-IsListed, calm-IsRunning}
use project_delta.Engine.Stopped.{IsStopped, listed-IsStopped}
use project_delta.Win32.{Win32}
use project_delta.Win32.Layer.{IsServing}
use project_delta.Win32.Threads.{sync_sleep}
use project_delta.Worker.Init.{Workers, new}
use project_delta.Worker.Room.{HasArenas, scratch_of, new-transient}

module _ (sys : Win32) (build : Build) (h : IsServing sys) (worker_proc n : ℕ) where
  -- The engine has come from a running one by requests for transient memory, and `left` words are left.
  pub record IsPlaying (left : ℕ) (s : Session sys build h) : Type 0 where
    pub from : Session sys build h
    pub was : IsRunning sys build h worker_proc n from
    pub calm : IsCalm sys build h worker_proc n from s
    pub arenas : HasArenas (2 ^ 22) left s.workers.globals
    pub start :
        thread_arena_reset (scratch_of s.workers.globals)
        ≡ thread_arena_reset (scratch_of from.workers.globals)

  HasRoom-fewer :
      (a : ThreadArena) (words less : ℕ) → less ≤ words → HasRoom a words → HasRoom a less
  HasRoom-fewer a words less le r = record {
    somewhere = r.somewhere;
    base = r.base;
    at_word = r.at_word;
    room = omega (arith, r.room, le);
    zone = r.zone;
    small = r.small;
  }

  HasArenas-fewer :
      (words less : ℕ) (g : Globals)
      → less ≤ words
      → HasArenas (2 ^ 22) words g
      → HasArenas (2 ^ 22) less g
  HasArenas-fewer words less g le a = record {
    on = a.on;
    type_is = a.type_is;
    index_is = a.index_is;
    storage = a.storage;
    scratch_room = HasRoom-fewer (scratch_of g) words less le a.scratch_room;
    apart = a.apart;
  }

  pub fewer-IsPlaying :
      (words less : ℕ) (s : Session sys build h)
      → less ≤ words
      → IsPlaying words s
      → IsPlaying less s
  fewer-IsPlaying words less s le q = record {
    from = q.from;
    was = q.was;
    calm = q.calm;
    arenas = HasArenas-fewer words less s.workers.globals le q.arenas;
    start = q.start;
  }

  pub running-IsPlaying :
      (s : Session sys build h) → IsRunning sys build h worker_proc n s → IsPlaying (2 ^ 22) s
  running-IsPlaying s r = record {
    from = s;
    was = r;
    calm = record {
      running = refl;
      config = refl;
      globals = refl;
      workers = refl;
      count = refl;
      threads = refl;
      first = refl;
      next = refl;
      word = refl;
    };
    arenas = r.room;
    start = refl;
  }

  pub asked :
      (words left more : ℕ) (s : Session sys build h)
      → words + left ≤ more
      → IsPlaying more s
      → (p : ℕ) × (w : Workers sys) × (new sys build h transient (words * 8) s.workers ≡ ran (p, w))
        × IsPlaying left (record s { workers = w })
        × (w.globals.master_slab_start ≡ s.workers.globals.master_slab_start)
  unfolding thread_arena_reset
  asked words left more s le q =
      let (p, w, e, _, a, _, reset, next, process, same) =
        new-transient sys build h words left (2 ^ 22) s.workers
          (HasArenas-fewer more (words + left) s.workers.globals le q.arenas) in
      let c = q.calm in
      (
        p,
        w,
        e,
        record {
          from = q.from;
          was = q.was;
          calm = record {
            running = c.running;
            config = c.config;
            globals =
                same.globals
                ∙ ap {A = Globals} (λ g. record g { contexts = w.globals.contexts }) c.globals;
            workers = same.workers ∙ c.workers;
            count = same.count ∙ c.count;
            threads = same.threads ∙ c.threads;
            first = ap (λ a. a.backing_memory) reset ∙ c.first;
            next = next ∙ c.next;
            word = ap (λ q. q.word) process ∙ c.word;
          };
          arenas = a;
          start = reset ∙ q.start;
        },
        ap (λ g. g.master_slab_start) same.globals,
      )

  pub updated :
      (left : ℕ) (s : Session sys build h)
      → IsPlaying left s
      → (s' : Session sys build h) × (engine_update sys build h s ≡ ran s')
        × IsRunning sys build h worker_proc n s'
        × (s'.workers.globals.master_slab_start ≡ s.workers.globals.master_slab_start)
        × ((scratch_of s'.workers.globals).offset ≡ 0)
  unfolding engine_update reset_current generic set_generic sync_sleep thread_arena_reset
  updated left s q =
      let g = s.workers.globals in
      let c = generic g.contexts 0 in
      let g' : Globals = record g {
        contexts =
            set_generic g.contexts 0
              (record c { transient_arena = thread_arena_reset c.transient_arena });
      } in
      let slept : Globals → Session sys build h = λ g. record s {
        workers = record s.workers { process = sync_sleep sys 100 s.workers.process; globals = g };
      } in
      let m = q.calm in
      (
        slept g',
        ap (λ o. reset_current sys build h o g >>= λ g. ran (slept g)) q.arenas.on,
        calm-IsRunning sys build h worker_proc n q.from (slept g')
            (record {
              running = m.running;
              config = m.config;
              globals = ap {A = Globals} (λ x. record x { contexts = g'.contexts }) m.globals;
              workers = m.workers;
              count = m.count;
              threads = m.threads;
              first = m.first;
              next = m.next;
              word = m.word;
            })
            (record {
              on = q.arenas.on;
              type_is = q.arenas.type_is;
              index_is = q.arenas.index_is;
              storage = q.arenas.storage;
              scratch_room =
                  subst (λ a. HasRoom a (2 ^ 22)) (sym q.start)
                    (thread_arena_reset-HasRoom (scratch_of q.from.workers.globals) (2 ^ 22)
                      q.was.room.scratch_room);
              apart = q.arenas.apart;
            })
            q.was,
        refl,
        refl,
      )

  pub playing-IsStopped :
      (left : ℕ) (s : Session sys build h)
      → IsPlaying left s
      → (address : ℕ) × IsStopped sys build h n address s
  playing-IsStopped left s q =
      let c = q.calm in
      let (cs, l) = q.was.listed in
      listed-IsStopped sys build h n worker_proc cs s (c.count ∙ q.was.threads_counted)
        (ap (λ g. g.thread_contexts) c.globals
          ∙ q.was.contexts_at
          ∙ sym (ap (λ g. g.master_slab_start) c.globals))
        (λ j lo hi.
          ap (λ w. (w j).should_close) c.workers ∙ (q.was.manned.holds j lo hi).not_closing)
        (calm-IsListed sys build h worker_proc n cs q.from s c l)
