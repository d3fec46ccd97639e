-- ===== src/Trigger.antt =====
-- DeltaTrigger/lib/src/trigger/trigger.cpp and DeltaTrigger/main.cpp: a signal is a datagram on a
-- loopback port. The socket calls of the operating system are a parameter.
pub mod Signals
use project_delta.Prelude.{
  ℕ, zero, suc, Bool, true, false, ◌+◌, ◌-◌, ◌^◌, if◌then◌else◌, Option, none, some, ◌==◌, not,
}
use project_delta.Prelude.Int.{ℤ, pos, ltb_ℤ}

-- Socket numbers are those of `intptr_t` read as 64 unsigned bits.
abbrev pub invalid_signal_socket : ℕ
invalid_signal_socket = 2 ^ 64 - 1

pub record Network : Type 1 where
  pub World : Type 0
  -- `WSAStartup`, which only Windows has: whether it succeeds.
  pub startup : World → Bool × World
  -- `socket`: a number, or invalid_signal_socket
  pub socket : World → ℕ × World
  -- `ioctlsocket` with FIONBIO, `fcntl` with O_NONBLOCK
  pub set_nonblocking : World → ℕ → World
  -- `bind` to a port of the loopback address
  pub bind : World → ℕ → ℕ → ℤ × World
  -- `recvfrom` of one byte, and `sendto` of one byte to a port of the loopback address
  pub receive : World → ℕ → ℤ × World
  pub send_byte : World → ℕ → ℕ → ℕ → ℤ × World
  pub close_socket : World → ℕ → World

module _ (net : Network) where
  open net use {World, startup, socket, set_nonblocking, bind, receive, send_byte, close_socket}

  -- initSocket, with the socket that it leaves.
  unfoldable pub init_socket : World → Bool × ℕ × World
  init_socket w =
      let (started, w') = startup w in
      let (sock, w'') = socket w' in
      if started
      then (not (sock == invalid_signal_socket), sock, w'')
      else (false, invalid_signal_socket, w')

  -- Close
  unfoldable pub close : ℕ → World → ℕ × World
  close sock w =
      if not (sock == invalid_signal_socket)
      then (invalid_signal_socket, close_socket w sock)
      else (sock, w)

  -- StartServer, given what initSocket has returned.
  unfoldable pub start_with : ℕ → Bool × ℕ × World → ℕ × World
  start_with port (ready, sock, w) =
      let (result, w') = bind (set_nonblocking w sock) sock port in
      if ready
      then if ltb_ℤ result (pos 0) then (invalid_signal_socket, (close sock w').1) else (sock, w')
      else (invalid_signal_socket, w)

  -- StartServer
  unfoldable pub start_server : ℕ → World → ℕ × World
  start_server port w = start_with port (init_socket w)

  -- The loop of CheckForSignal; `none` means that the fuel ran out.
  unfoldable pub drain : ℕ → ℕ → Bool → World → Option (Bool × World)
  drain zero sock triggered w = none
  drain (suc fuel) sock triggered w =
      let (result, w') = receive w sock in
      let rest = drain fuel sock true w' in
      if ltb_ℤ (pos 0) result then rest else some (triggered, w')

  -- CheckForSignal
  unfoldable pub check_for_signal : ℕ → ℕ → World → Option (Bool × World)
  check_for_signal fuel sock w =
      if sock == invalid_signal_socket then some (false, w) else drain fuel sock false w

  -- Send, given what initSocket has returned.
  unfoldable pub send_with : ℕ → Bool × ℕ × World → Bool × World
  send_with port (ready, sock, w) =
      let (result, w') = send_byte w sock port 67 in
      if ready then (ltb_ℤ (pos 0) result, (close sock w').1) else (false, w)

  -- Send
  unfoldable pub send : ℕ → World → Bool × World
  send port w = send_with port (init_socket w)

  -- `main` of DeltaTrigger: true for 0, false for -1.
  unfoldable pub main : World → Bool × World
  main w = send 6767 w
