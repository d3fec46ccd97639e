-- ===== src/Tests/Wires.antt =====
-- Two signals between two turns of the launcher, which listens at socket 4.
use project_delta.Prelude.{ℕ, true, [], ◌∷◌}
use project_delta.Launcher.{game_module}
use project_delta.Launcher.Main.{State, initialize_engine, init}
use project_delta.Launcher.Wired.{WiredWorld, wired}
use project_delta.Tests.Session.{few_frames}
use project_delta.Tests.Signal.{loopback, mailbox}

abbrev listening : ℕ → WiredWorld few_frames loopback
listening n = record { rest = 5; network = record { waiting = n; sockets = 1 }; socket = 4 }

-- With so many signals before the turn.
abbrev turn : ℕ → State (wired few_frames loopback mailbox)
turn n = record {
  game = record {
    module_path = game_module;
    dll = 7;
    init_fn = 10;
    update_fn = 20;
    shutdown_fn = 30;
  };
  running = true;
  world = listening n;
  calls = initialize_engine ∷ init 10 ∷ [];
}
