-- ===== src/Tests/Whole.antt =====
-- The launcher over the engine on a machine with two cores, with a game that plays a few frames and asks for
-- a hundred words at each call.
use project_delta.Prelude.{
  ℕ, ◌<◌, ◌≡◌, refl, arith, inl, inr, true, none, some, ap, ◌∙◌, sym, [], ◌∷◌, ◌++◌,
}
use project_delta.Build.{debug}
use project_delta.Launcher.{Host}
use project_delta.Launcher.Main.{
  State, Next, Result, continues, crashes, breaks, body, frame, main, after_update, update,
  update_engine,
}
use project_delta.Launcher.Load.{null_cases}
use project_delta.Launcher.Loop.{IsSession, after_call, call_game-eq, call_game_null}
use project_delta.Launcher.Hosted.{HostedWorld, hosted}
use project_delta.Launcher.Paired.{IsPaired, main-IsSession-IsPaired}
use project_delta.Tests.Contexts.{zero_contexts}
use project_delta.Tests.Session.{few_frames, fewer}
use project_delta.Tests.Starting.{machine-IsServing, machine-IsAble, process}
use project_delta.Tests.Windows.{machine, two_cores, both_cores-IsLaid}

abbrev asks : ℕ → ℕ → ℕ
asks w f = 100

abbrev whole : Host
whole = hosted few_frames (machine true) debug machine-IsServing 4096 200 zero_contexts asks

abbrev off : HostedWorld few_frames (machine true) debug machine-IsServing
off = record { rest = 3; process = process; engine = none }

state_of : State whole → Next whole → State whole
state_of s (continues s') = s'
state_of s (breaks s') = s'
state_of s (crashes s') = s'

shrinks :
    (s s' : State whole)
    → body whole s ≡ continues s'
    → s'.running ≡ true
    → s'.world.rest < s.world.rest
unfolding body frame state_of after_call
shrinks s s' e on =
    let fn = s.game.update_fn in
    let w = (whole.check_for_signal s.world).1 in
    let t : State whole = record s {
      world = whole.engine_update w;
      calls = s.calls ++ update_engine ∷ [];
    } in
    elim (null_cases fn) [
      | inl (z, _) ↦
          let h = sym (ap (after_update whole t) (call_game_null whole update fn t z)) ∙ e in cc
      | inr (n, _) ↦
          let h = sym (ap (after_update whole t) (call_game-eq whole update fn t n)) ∙ e in
          let same = ap (state_of s) h in
          let less = fewer s.world.rest (ap (λ x. x.running) same ∙ on) in
          omega (arith, less, ap (λ x. x.world.rest) same)
    ]

main-IsSession-IsPaired_example :
    (fuel : ℕ) × (r : Result whole) × (main whole fuel 2 off ≡ some r)
    × IsSession whole r
    × IsPaired few_frames
        (machine true)
        debug
        machine-IsServing
        4096
        200
        zero_contexts
        asks
        1
        (some r)
unfolding project_delta.Win32.Start.allocate_buffer project_delta.Win32.Cores.cores
main-IsSession-IsPaired_example =
    main-IsSession-IsPaired few_frames (machine true) debug machine-IsServing 4096 200 zero_contexts
      asks 1 (λ w f. omega arith) machine-IsAble (omega arith) (λ s. s.world.rest) shrinks 2 off
      (two_cores 0 ∷ two_cores 48 ∷ []) refl refl both_cores-IsLaid refl refl refl
