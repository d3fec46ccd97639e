-- ===== src/Launcher/Wired.antt =====
-- The launcher (Launcher/main.cpp) with the socket of DeltaTrigger/lib/src/trigger/trigger.cpp in the place
-- of the two calls that it makes of the trigger.
use project_delta.Prelude.{ℕ, suc, ◌==◌, not, Bool, false, Option, none, some}
use project_delta.Launcher.{Host}
use project_delta.Trigger.{Network, invalid_signal_socket, start_server, check_for_signal}
use project_delta.Trigger.Signals.{Mailbox}

-- The rest of the system, the network, and `g_reloadSocket`.
pub record WiredWorld (host : Host) (net : Network) : Type 0 where
  pub rest : host.World
  pub network : net.World
  pub socket : ℕ

module _ (host : Host) (net : Network) (mailbox : Mailbox net) where
  abbrev with_rest : WiredWorld host net → host.World → WiredWorld host net
  with_rest w r = record w { rest = r }

  -- `none` as no signal.
  abbrev or_quiet : WiredWorld host net → Option (Bool × net.World) → Bool × WiredWorld host net
  or_quiet w none = (false, w)
  or_quiet w (some (triggered, n)) = (triggered, record w { network = n })

  -- The fuel is one more than the signals that wait.
  abbrev pub wired : Host
  wired = record {
    World = WiredWorld host net;
    exists = λ w f. host.exists w.rest f;
    copy = λ w f g. let (done, r) = host.copy w.rest f g in (done, with_rest w r);
    load_lib = λ w f. let (lib, r) = host.load_lib w.rest f in (lib, with_rest w r);
    load_symb = λ w s lib. host.load_symb w.rest s lib;
    unload_lib = λ w lib. with_rest w (host.unload_lib w.rest lib);
    start_server = λ w.
        let (sock, n) = start_server net 6767 w.network in
        (not (sock == invalid_signal_socket), record w { network = n; socket = sock });
    check_for_signal = λ w.
        or_quiet w
          (check_for_signal net (suc (mailbox.waiting w.network w.socket)) w.socket w.network);
    engine_initialize = λ w. with_rest w (host.engine_initialize w.rest);
    engine_update = λ w. with_rest w (host.engine_update w.rest);
    engine_shutdown = λ w. with_rest w (host.engine_shutdown w.rest);
    call =
        λ w f running. let (running', r) = host.call w.rest f running in (running', with_rest w r);
  }

  -- The socket and what waits there are not touched.
  abbrev trigger_of : WiredWorld host net → net.World × ℕ
  trigger_of w = (w.network, w.socket)
