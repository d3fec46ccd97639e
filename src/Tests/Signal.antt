-- ===== src/Tests/Signal.antt =====
-- A loopback network with one socket: the datagrams that wait there and the number of open sockets.
use project_delta.Prelude.{
  ℕ, zero, suc, ◌+◌, ◌-◌, ◌<◌, ◌==◌, not, ◌&&◌, if◌then◌else◌, ℕ_discrete, ◌≡◌, refl, arith, true,
  some,
}
use project_delta.Prelude.Int.{ℤ, pos, negsuc}
use project_delta.Trigger.{Network, invalid_signal_socket, start_server, check_for_signal, send}
use project_delta.Trigger.Signals.{Mailbox, IsCounted, check_for_signal-drains, start_server-held}

pub record Loopback : Type 0 where
  pub waiting : ℕ
  pub sockets : ℕ

abbrev take : ℕ → ℕ → ℤ × Loopback
take zero k = (negsuc 0, record { waiting = 0; sockets = k })
take (suc n) k = (pos 1, record { waiting = n; sockets = k })

abbrev pub loopback : Network
loopback = record {
  World = Loopback;
  startup = λ w. (true, w);
  socket = λ w. (3, record w { sockets = suc w.sockets });
  set_nonblocking = λ w s. w;
  bind = λ w s port. (pos 0, w);
  receive = λ w s. take w.waiting w.sockets;
  send_byte = λ w s port b. (pos 1, record w { waiting = suc w.waiting });
  close_socket = λ w s. record w { sockets = w.sockets - 1 };
}

abbrev pub mailbox : Mailbox loopback
mailbox = record {
  waiting = λ w s. w.waiting;
  receive_some = λ w s n e. rw e (refl, refl);
  receive_none = λ w s e. rw e (refl, refl);
}

abbrev three_signals : Loopback
three_signals = record { waiting = 3; sockets = 1 }

check_for_signal-drains_example :
    (w' : Loopback) × (check_for_signal loopback 4 3 three_signals ≡ some (true, w'))
    × (w'.waiting ≡ 0)
check_for_signal-drains_example =
    check_for_signal-drains loopback mailbox 3 three_signals (omega arith)

-- The state is how often each socket is open; `socket` gives the socket 3.
abbrev sockets_only : Network
sockets_only = record {
  World = ℕ → ℕ;
  startup = λ w. (true, w);
  socket = λ w. (3, λ i. w i + (if i == 3 then 1 else 0));
  set_nonblocking = λ w s. w;
  bind = λ w s port. (pos 0, w);
  receive = λ w s. (negsuc 0, w);
  send_byte = λ w s port b. (pos 1, w);
  close_socket = λ w s i. w i - (if i == s then 1 else 0);
}

abbrev held : (ℕ → ℕ) → ℕ → ℕ
held w i = w i

closed_once :
    (w : ℕ → ℕ) (s i : ℕ)
    → 0 < w s
    → w i - (if i == s then 1 else 0) + (if i == s then 1 else 0) ≡ w i
closed_once w s i h = elim (ℕ_discrete i s) [
  | yes e ↦ rw e (ground (arith, h))
  | no n ↦ ground (arith, n)
]

sockets_only-IsCounted : IsCounted sockets_only held
sockets_only-IsCounted = record {
  startup = λ w i. refl;
  socket = λ w i. refl;
  set_nonblocking = λ w s i. refl;
  bind = λ w s port i. refl;
  send_byte = λ w s port b i. refl;
  close_socket = closed_once;
}

abbrev one_open : ℕ → ℕ
one_open i = if i == 4 then 1 else 0

start_server-held_example :
    (let (sock, w') = start_server sockets_only 6767 one_open in
      w' 3 ≡ 0 + (if not (sock == invalid_signal_socket) && 3 == sock then 1 else 0))
    × ((send sockets_only 6767 one_open).1 3 ≡ 0)
start_server-held_example =
    start_server-held sockets_only held sockets_only-IsCounted 6767 one_open 3
