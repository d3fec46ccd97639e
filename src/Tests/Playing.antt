-- ===== src/Tests/Playing.antt =====
-- Runs of the launcher with the example module: a few frames, then a signal while the module's file is
-- gone.
use project_delta.Prelude.{
  ℕ, zero, suc, ◌≡◌, ◌≢◌, ◌==◌, if◌then◌else◌, refl, arith, Bool, true, false, some, List, [], ◌∷◌,
}
use project_delta.Win32.Cpu.{cleared}
use project_delta.Launcher.{
  load, load_symbols, make_shadow_copy, reload, unload, Host, game_on_init, game_on_update,
  game_on_shutdown, Symbol,
}
use project_delta.Launcher.Main.{
  launch, launch_with, play, call_game, finish, body, frame, reloaded, main, crashed, loop, Call,
  initialize_engine, init, update, update_engine,
}
use project_delta.HelloWorldGame.{exported, on_init, on_update, on_shutdown}
use project_delta.HelloWorldGame.Endless.{IsPlaying, IsUnended, main-IsUnended}

abbrev address : Symbol → ℕ
address game_on_init = 10
address game_on_update = 20
address game_on_shutdown = 30

abbrev symbol : ℕ → Symbol
symbol fn = if fn == 10 then game_on_init else if fn == 20 then game_on_update else game_on_shutdown

abbrev next_signal : ℕ → Bool × ℕ
next_signal zero = (true, zero)
next_signal (suc n) = (false, n)

abbrev is_there : ℕ → Bool
is_there zero = false
is_there (suc n) = true

-- The world is the number of frames up to the signal.
abbrev hello : Host
hello = record {
  World = ℕ;
  exists = λ w f. some (is_there w);
  copy = λ w f g. (true, w);
  load_lib = λ w f. (7, w);
  load_symb = λ w s lib. address s;
  unload_lib = λ w lib. w;
  start_server = λ w. (true, w);
  check_for_signal = next_signal;
  engine_initialize = λ w. w;
  engine_update = λ w. w;
  engine_shutdown = λ w. w;
  call = λ w f running. ((exported cleared (symbol f) running).0, w);
}

address_given : (s : Symbol) → address s ≢ 0
address_given game_on_init = omega arith
address_given game_on_update = omega arith
address_given game_on_shutdown = omega arith

runs :
    (s : Symbol) (running : Bool)
    → (exported cleared (symbol (address s)) running).0 ≡ (exported cleared s running).0
runs game_on_init running = refl
runs game_on_update running = refl
runs game_on_shutdown running = refl

hello-IsPlaying : IsPlaying hello cleared
hello-IsPlaying = record {
  exports = λ w s lib n. address_given s;
  runs = λ w w' s lib running. runs s running;
}

main-IsUnended_example : IsUnended hello (main hello 9 2 2)
main-IsUnended_example = main-IsUnended hello cleared hello-IsPlaying 9 2 2

abbrev played : List Call
played = initialize_engine ∷ init 10 ∷ update_engine ∷ update 20 ∷ update_engine ∷ update 20 ∷ []

main-hello : main hello 9 2 2 ≡ some (record { ending = crashed; calls = played; world = 0 })
unfolding main launch launch_with load load_symbols make_shadow_copy reload unload reloaded play
    call_game loop body frame finish exported on_init on_update on_shutdown
main-hello = refl
