-- ===== src/Launcher/Hosted.antt =====
-- The launcher (Launcher/main.cpp) with the engine of Engine/src/delta/core/engine.cpp, over the Win32 layer,
-- in the place of the three calls that it makes of the engine.
use project_delta.Prelude.{ℕ, ◌*◌, Option, none, some}
use project_delta.Build.{Build}
use project_delta.Build.Ran.{Ran, ran, ◌>>=◌}
use project_delta.ThreadContext.{Contexts}
use project_delta.Engine.{transient}
use project_delta.Engine.Session.{Session, engine_initialize, engine_update, engine_shutdown}
use project_delta.Win32.{Win32}
use project_delta.Win32.Layer.{IsServing}
use project_delta.Win32.Threads.{Process}
use project_delta.Worker.Init.{new}
use project_delta.Launcher.{Host}

-- The rest of the system, the process before Engine::Initialize, and the engine from then on. An engine that
-- has stopped at an assertion, or whose behaviour is undefined, is no state that the program goes on from.
pub record HostedWorld (host : Host) (sys : Win32) (build : Build) (h : IsServing sys)
    : Type 0 where
  pub rest : host.World
  pub process : Process sys
  pub engine : Option (Ran (Session sys build h))

module _ (host : Host) (sys : Win32) (build : Build) (h : IsServing sys)
    (worker_proc count_offset : ℕ) (memory : Contexts) (asks : host.World → ℕ → ℕ) where
  -- `none` before Engine::Initialize.
  abbrev after :
      (Session sys build h → Ran (Session sys build h))
      → Option (Ran (Session sys build h))
      → Option (Ran (Session sys build h))
  after f none = none
  after f (some r) = some (r >>= f)

  -- A request of the game for so many words of transient memory.
  unfoldable pub ask : ℕ → Session sys build h → Ran (Session sys build h)
  ask words s = do
    (p, workers) ← new sys build h transient (words * 8) s.workers
    ran (record s { workers = workers })

  -- A function of the game asks for as many words as `asks` says.
  abbrev pub hosted : Host
  hosted = record {
    World = HostedWorld host sys build h;
    exists = λ w f. host.exists w.rest f;
    copy = λ w f g. let (done, r) = host.copy w.rest f g in (done, record w { rest = r });
    load_lib = λ w f. let (lib, r) = host.load_lib w.rest f in (lib, record w { rest = r });
    load_symb = λ w s lib. host.load_symb w.rest s lib;
    unload_lib = λ w lib. record w { rest = host.unload_lib w.rest lib };
    start_server =
        λ w. let (opened, r) = host.start_server w.rest in (opened, record w { rest = r });
    check_for_signal =
        λ w. let (signal, r) = host.check_for_signal w.rest in (signal, record w { rest = r });
    engine_initialize = λ w. record w {
      engine = some (engine_initialize sys build h worker_proc count_offset memory w.process);
    };
    engine_update = λ w. record w { engine = after (engine_update sys build h) w.engine };
    engine_shutdown =
        λ w. record w { engine = after (λ s. ran (engine_shutdown sys build h s)) w.engine };
    call = λ w f running.
        let (running', r) = host.call w.rest f running in
        (running', record w { rest = r; engine = after (ask (asks w.rest f)) w.engine });
  }
