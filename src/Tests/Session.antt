-- ===== src/Tests/Session.antt =====
-- Runs of the launcher with a game that plays a few frames and then ends.
use project_delta.Prelude.{
  ℕ, zero, suc, ◌<◌, ◌≡◌, refl, arith, inl, inr, Bool, true, false, some, ap, ◌∙◌, sym, List, [],
  ◌∷◌, ◌++◌,
}
use project_delta.Launcher.{
  load, Host, game_module, game_on_init, game_on_update, game_on_shutdown, Symbol,
}
use project_delta.Launcher.Main.{
  launch, launch_with, play, call_game, finish, State, Next, Result, continues, crashes, breaks,
  body, frame, main, crashed, exited, loop, after_update, Call, initialize_engine, init, update,
  update_engine, shutdown, shutdown_engine,
}
use project_delta.Launcher.Load.{null_cases}
use project_delta.Launcher.Loop.{
  main-IsSession, loop-crashed, IsSession, after_call, call_game-eq, call_game_null,
}

abbrev address : Symbol → ℕ
address game_on_init = 10
address game_on_update = 20
address game_on_shutdown = 30

abbrev pub after_frame : ℕ → Bool × ℕ
after_frame zero = (false, zero)
after_frame (suc n) = (true, n)

-- The world is the number of frames that are left.
abbrev pub few_frames : Host
few_frames = record {
  World = ℕ;
  exists = λ w f. some true;
  copy = λ w f g. (true, w);
  load_lib = λ w f. (7, w);
  load_symb = λ w s lib. address s;
  unload_lib = λ w lib. w;
  start_server = λ w. (true, w);
  check_for_signal = λ w. (false, w);
  engine_initialize = λ w. w;
  engine_update = λ w. w;
  engine_shutdown = λ w. w;
  call = λ w f running. after_frame w;
}

state_of : State few_frames → Next few_frames → State few_frames
state_of s (continues s') = s'
state_of s (breaks s') = s'
state_of s (crashes s') = s'

pub fewer : (n : ℕ) → (after_frame n).0 ≡ true → (after_frame n).1 < n
fewer zero e = cc
fewer (suc n) e = omega arith

shrinks :
    (s s' : State few_frames)
    → body few_frames s ≡ continues s'
    → s'.running ≡ true
    → s'.world < s.world
unfolding body frame state_of after_call
shrinks s s' e on =
    let fn = s.game.update_fn in
    let t : State few_frames = record s { calls = s.calls ++ update_engine ∷ [] } in
    elim (null_cases fn) [
      | inl (z, _) ↦
          let h =
            sym (ap (after_update few_frames t) (call_game_null few_frames update fn t z)) ∙ e in
          cc
      | inr (n, _) ↦
          let h =
            sym (ap (after_update few_frames t) (call_game-eq few_frames update fn t n)) ∙ e in
          let same = ap (state_of s) h in
          let less = fewer s.world (ap (λ x. x.running) same ∙ on) in
          omega (arith, less, ap (λ x. x.world) same)
    ]

main-IsSession_example :
    (fuel : ℕ) × (r : Result few_frames) × (main few_frames fuel 2 3 ≡ some r)
    × IsSession few_frames r
main-IsSession_example = main-IsSession few_frames (λ s. s.world) shrinks 2 3

abbrev played : List Call
played =
    initialize_engine
    ∷ init 10
    ∷ update_engine
    ∷ update 20
    ∷ update_engine
    ∷ update 20
    ∷ update_engine
    ∷ update 20
    ∷ shutdown 30
    ∷ shutdown_engine
    ∷ []

main-few_frames :
    main few_frames 9 2 3 ≡ some (record { ending = exited 0; calls = played; world = 0 })
unfolding main launch launch_with load play call_game loop body frame finish
main-few_frames = refl

-- The module is there at first, and a signal comes while it is being written.
abbrev replaced : Host
replaced = record few_frames { exists = λ w f. some false; check_for_signal = λ w. (true, w) }

abbrev playing : State replaced
playing = record {
  game = record {
    module_path = game_module;
    dll = 7;
    init_fn = 10;
    update_fn = 20;
    shutdown_fn = 30;
  };
  running = true;
  world = 2;
  calls = initialize_engine ∷ init 10 ∷ [];
}

loop-crashed_example :
    (r : Result replaced) × (loop replaced 1 playing ≡ some r)
    × (r.ending ≡ crashed)
    × (r.calls ≡ playing.calls)
loop-crashed_example = loop-crashed replaced 0 playing refl refl refl
