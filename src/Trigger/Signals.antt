-- ===== src/Trigger/Signals.antt =====
-- What the calls of trigger.cpp do to the sockets and to the datagrams that wait at them.
use project_delta.Prelude.{
  ℕ, zero, suc, ◌+◌, ◌==◌, not, ◌&&◌, Bool-cases, ◌<◌, ◌≡◌, ◌≢◌, ◌⊎◌, inl, inr, ◌∙◌, refl, ap,
  arith, ltb, Bool, true, false, some, if◌then◌else◌,
}
use project_delta.Prelude.Int.{pos, ltb_ℤ}
use project_delta.Trigger.{
  Network, invalid_signal_socket, init_socket, close, start_server, start_with, drain,
  check_for_signal, send, send_with,
}

-- How many datagrams of at least one byte wait at a socket. A receive that returns a positive number
-- has taken one, and it returns one exactly if there is one.
pub record Mailbox (net : Network) : Type 0 where
  pub waiting : net.World → ℕ → ℕ
  pub receive_some :
      (w : net.World) (sock n : ℕ)
      → waiting w sock ≡ suc n
      → (ltb_ℤ (pos 0) (net.receive w sock).0 ≡ true) × (waiting (net.receive w sock).1 sock ≡ n)
  pub receive_none :
      (w : net.World) (sock : ℕ)
      → waiting w sock ≡ 0
      → (ltb_ℤ (pos 0) (net.receive w sock).0 ≡ false) × (waiting (net.receive w sock).1 sock ≡ 0)

-- `held w i` is how often the socket `i` is open in `w`: a valid result of `socket` is open once more,
-- closing an open socket closes that one, and the other calls open and close nothing.
pub record IsCounted (net : Network) (held : net.World → ℕ → ℕ) : Type 0 where
  pub startup : (w : net.World) (i : ℕ) → held (net.startup w).1 i ≡ held w i
  pub socket :
      (w : net.World) (i : ℕ)
      → held (net.socket w).1 i
        ≡ held w i
          + (if not ((net.socket w).0 == invalid_signal_socket) && i == (net.socket w).0
              then 1
              else 0)
  pub set_nonblocking : (w : net.World) (s i : ℕ) → held (net.set_nonblocking w s) i ≡ held w i
  pub bind : (w : net.World) (s port i : ℕ) → held (net.bind w s port).1 i ≡ held w i
  pub send_byte : (w : net.World) (s port b i : ℕ) → held (net.send_byte w s port b).1 i ≡ held w i
  pub close_socket :
      (w : net.World) (s i : ℕ)
      → 0 < held w s
      → held (net.close_socket w s) i + (if i == s then 1 else 0) ≡ held w i

module _ (net : Network) where
  module _ (mailbox : Mailbox net) (sock : ℕ) where
    abbrev waiting : net.World → ℕ
    waiting w = mailbox.waiting w sock

    drained :
        (n fuel : ℕ) (triggered : Bool) (w : net.World)
        → waiting w ≡ n
        → n < fuel
        → (w' : net.World) × (drain net fuel sock triggered w
            ≡ some (if ltb 0 n then true else triggered, w'))
          × (waiting w' ≡ 0)
    unfolding drain
    drained n zero triggered w e h = absurd (omega (arith, h))
    drained zero (suc fuel) triggered w e h =
        let (end, empty) = mailbox.receive_none w sock e in
        ((net.receive w sock).1, rw end refl, empty)
    drained (suc n) (suc fuel) triggered w e h =
        let (more, less) = mailbox.receive_some w sock n e in
        let (w', r, empty) = drained n fuel true (net.receive w sock).1 less (omega arith) in
        (w', rw more (r ∙ ground arith), empty)

    -- A check of a valid socket takes every signal that waits there, however many there are, and
    -- returns whether there was one; with one more turn than signals the loop comes to its end.
    pub check_for_signal-drains :
        (w : net.World)
        → sock ≢ invalid_signal_socket
        → (w' : net.World) × (check_for_signal net (suc (waiting w)) sock w
            ≡ some (ltb 0 (waiting w), w'))
          × (waiting w' ≡ 0)
    unfolding check_for_signal
    check_for_signal-drains w valid =
        let (w', r, empty) = drained (waiting w) (suc (waiting w)) false w refl (omega arith) in
        (w', ground (arith, r), empty)

    -- A check with as much fuel as signals wait, and one more turn.
    pub checked :
        (w : net.World) (n : ℕ)
        → sock ≢ invalid_signal_socket
        → waiting w ≡ n
        → (w' : net.World) × (check_for_signal net (suc (waiting w)) sock w ≡ some (ltb 0 n, w'))
          × (waiting w' ≡ 0)
    checked w n valid e =
        let (w', r, empty) = check_for_signal-drains w valid in
        (w', r ∙ ap (λ k. some (ltb 0 k, w')) e, empty)

  module _ (held : net.World → ℕ → ℕ) (h : IsCounted net held) where
    -- `sock` is open once more, or it is no socket and nothing has changed.
    Opens : net.World → Bool × ℕ × net.World → Type 0
    Opens w (ready, sock, w') =
        ((ready ≡ true)
          × ((sock == invalid_signal_socket) ≡ false)
          × ((i : ℕ) → held w' i ≡ held w i + (if i == sock then 1 else 0)))
        ⊎ ((ready ≡ false)
            × ((sock == invalid_signal_socket) ≡ true)
            × ((i : ℕ) → held w' i ≡ held w i))

    socket-Opens :
        (w w' : net.World) (r : ℕ × net.World)
        → ((i : ℕ) → held w' i ≡ held w i)
        → ((i : ℕ)
            → held r.1 i
              ≡ held w' i + (if not (r.0 == invalid_signal_socket) && i == r.0 then 1 else 0))
        → Opens w (not (r.0 == invalid_signal_socket), r.0, r.1)
    unfolding Opens
    socket-Opens w w' (sock, w2) same opens = elim (Bool-cases (sock == invalid_signal_socket)) [
      | inl e ↦ inr (rw e refl, e, λ i. let o = opens i in ground (arith, o, same i, e))
      | inr e ↦ inl (rw e refl, e, λ i. let o = opens i in ground (arith, o, same i, e))
    ]

    started-Opens :
        (w : net.World) (r : Bool × net.World)
        → ((i : ℕ) → held r.1 i ≡ held w i)
        → Opens w (
            if r.0
            then (
              not ((net.socket r.1).0 == invalid_signal_socket),
              (net.socket r.1).0,
              (net.socket r.1).1,
            )
            else (false, invalid_signal_socket, r.1))
    unfolding Opens
    started-Opens w (true, w') same = socket-Opens w w' (net.socket w') same (h.socket w')
    started-Opens w (false, w') same = inr (refl, refl, same)

    init_socket-Opens : (w : net.World) → Opens w (init_socket net w)
    unfolding init_socket
    init_socket-Opens w = started-Opens w (net.startup w) (h.startup w)

    -- Closing the socket that was opened once more.
    close-held :
        (sock : ℕ) (w w' : net.World)
        → (sock == invalid_signal_socket) ≡ false
        → ((i : ℕ) → held w' i ≡ held w i + (if i == sock then 1 else 0))
        → (i : ℕ) → held (close net sock w').1 i ≡ held w i
    unfolding close
    close-held sock w w' valid opens i =
        let own = opens sock in
        let is : 0 < held w' sock = ground arith in
        rw valid (omega (arith, h.close_socket w' sock i is, opens i))

    start_with-held :
        (port : ℕ) (w : net.World) (r : Bool × ℕ × net.World)
        → Opens w r
        → (i : ℕ)
        → let (sock, w') = start_with net port r in
          held w' i ≡ held w i + (if not (sock == invalid_signal_socket) && i == sock then 1 else 0)
    unfolding start_with Opens
    start_with-held port w (ready, sock, w') (inl (r, valid, opens)) i =
        let w2 = net.set_nonblocking w' sock in
        let same : (i : ℕ)
            → held (net.bind w2 sock port).1 i ≡ held w i + (if i == sock then 1 else 0) =
          λ i. omega (arith, h.bind w2 sock port i, h.set_nonblocking w' sock i, opens i) in
        elim (Bool-cases (ltb_ℤ (net.bind w2 sock port).0 (pos 0))) [
          | inl e ↦
              rw (r, e) (omega (arith, close-held sock w (net.bind w2 sock port).1 valid same i))
          | inr e ↦ rw (r, e, valid) (same i)
        ]
    start_with-held port w (ready, sock, w') (inr (r, invalid, same)) i =
        rw r (omega (arith, same i))

    send_with-held :
        (port : ℕ) (w : net.World) (r : Bool × ℕ × net.World)
        → Opens w r
        → (i : ℕ) → held (send_with net port r).1 i ≡ held w i
    unfolding send_with Opens
    send_with-held port w (ready, sock, w') (inl (r, valid, opens)) i = rw r (
        close-held sock w (net.send_byte w' sock port 67).1 valid
          (λ i. omega (arith, h.send_byte w' sock port 67 i, opens i)) i)
    send_with-held port w (ready, sock, w') (inr (r, invalid, same)) i = rw r (same i)

    -- With sockets that are counted one by one, StartServer leaves the socket that it returns open once
    -- more, if it is a valid one, and every other socket as often as before, whichever call failed;
    -- Send leaves all of them as they were.
    pub start_server-held :
        (port : ℕ) (w : net.World) (i : ℕ)
        → (let (sock, w') = start_server net port w in
            held w' i
            ≡ held w i + (if not (sock == invalid_signal_socket) && i == sock then 1 else 0))
          × (held (send net port w).1 i ≡ held w i)
    unfolding start_server send
    start_server-held port w i = (
      start_with-held port w (init_socket net w) (init_socket-Opens w) i,
      send_with-held port w (init_socket net w) (init_socket-Opens w) i,
    )
