-- ===== src/HelloWorldGame/Endless.antt =====
-- `main` of Launcher/main.cpp with the module that Examples/HelloWorldGame/game.cpp is built to.
use project_delta.Prelude.{
  ℕ, zero, suc, ◌≡◌, ◌≢◌, inl, inr, refl, ap, sym, ◌∙◌, ◌==◌, ◌++◌, if◌then◌else◌, Bool, true,
  false, Option, none, some, List, [], ◌∷◌,
}
use project_delta.Win32.Cpu.{OsInfo}
use project_delta.Launcher.{
  Host, Game, Symbol, game_on_init, game_on_update, game_on_shutdown, game, game_module,
  make_shadow_copy, load_symbols, load, unload, reload,
}
use project_delta.Launcher.Load.{null_cases}
use project_delta.Launcher.Main.{
  Call, initialize_engine, update_engine, init, update, shutdown, failed, crashed, State, Result,
  call_game, finish, frame, reloaded, body, after_body, loop, play, launch_with, launch, failure,
  started, main,
}
use project_delta.Launcher.Loop.{
  IsPlayed, begun, framed, few_arguments, loop_running, after_call, call_game-eq, call_game_null,
}
use project_delta.HelloWorldGame.{on_init, on_update, exported}

-- A system where every library that can be loaded is this module: it has the three symbols, and a
-- call through the address of one does to `isRunning` what that function does.
pub record IsPlaying (host : Host) (info : OsInfo) : Type 0 where
  pub exports : (w : host.World) (s : Symbol) (lib : ℕ) → lib ≢ 0 → host.load_symb w s lib ≢ 0
  pub runs :
      (w w' : host.World) (s : Symbol) (lib : ℕ) (running : Bool)
      → (host.call w (host.load_symb w' s lib) running).0 ≡ (exported info s running).0

module _ (host : Host) where
  open host use {World, load_lib, load_symb}

  -- How far a run can get with some fuel: it is not at its end; it has failed before any call, or after
  -- the engine's start alone; or it crashed where a reload has failed, after the engine's start, the
  -- game's `init` and whole frames, with no other call.
  pub data IsUnended : Option (Result host) → Type 0 where
    goes_on : IsUnended none
    refused : (w : World) → IsUnended (some (record { ending = failed; calls = []; world = w }))
    unloaded :
        (w : World)
        → IsUnended (some (record { ending = failed; calls = initialize_engine ∷ []; world = w }))
    lost :
        {cs : List Call} (g : Game) (w : World)
        → IsPlayed cs
        → (reload host g w).0 ≡ false
        → IsUnended (some (record { ending = crashed; calls = cs; world = (reload host g w).2 }))

  -- The pointers hold the addresses of a library's symbols.
  record IsLoaded (g : Game) : Type 0 where
    lib : ℕ
    at : World
    found : lib ≢ 0
    init_eq : g.init_fn ≡ load_symb at game_on_init lib
    update_eq : g.update_fn ≡ load_symb at game_on_update lib

  data Loads (g : Game) : Bool × Game × World → Type 0 where
    whole : (g' : Game) (w : World) → IsLoaded g' → Loads g (true, g', w)
    kept : (g' : Game) (w : World) → g'.shutdown_fn ≡ g.shutdown_fn → Loads g (false, g', w)

  module _ (info : OsInfo) (h : IsPlaying host info) where
    load_symbols-Loads : (g : Game) (p : ℕ × World) → Loads g (load_symbols host g p)
    unfolding load_symbols
    load_symbols-Loads g (lib, w) = elim (null_cases lib) [
      | inl (_, e) ↦ rw e (kept _ w refl)
      | inr (n, e) ↦
          let symbol : (s : Symbol) → (load_symb w s lib == 0) ≡ false = λ s.
            elim (null_cases (load_symb w s lib)) [
              | inl (z, _) ↦ absurd (h.exports w s lib n z)
              | inr (_, f) ↦ f
            ] in
          rw (e, symbol game_on_init, symbol game_on_update, symbol game_on_shutdown)
            (whole _ w record { lib = lib; at = w; found = n; init_eq = refl; update_eq = refl })
    ]

    after_copy :
        (g : Game) (p : Bool × World)
        → Loads g
            (if p.0 then load_symbols host g (load_lib p.1 g.module_path) else (false, g, p.1))
    after_copy g (true, w) = load_symbols-Loads g (load_lib w g.module_path)
    after_copy g (false, w) = kept g w refl

    load-Loads : (g : Game) (w : World) → Loads g (load host g w)
    unfolding load
    load-Loads g w = after_copy g (make_shadow_copy host g w)

    reload-Loads : (g : Game) (w : World) → Loads (unload host g w).0 (reload host g w)
    unfolding reload
    reload-Loads g w = load-Loads (unload host g w).0 (unload host g w).1

    unload_shutdown : (g : Game) (w : World) → (unload host g w).0.shutdown_fn ≡ 0
    unfolding unload
    unload_shutdown g w = refl

    not_null :
        {f : ℕ} (sym_of : Symbol) (lib : ℕ) (w : World)
        → lib ≢ 0
        → f ≡ load_symb w sym_of lib
        → f ≢ 0
    not_null sym_of lib w n e z = h.exports w sym_of lib n (sym e ∙ z)

    -- A call through a pointer to a symbol's function that leaves `isRunning`.
    called :
        (name : ℕ → Call) (f : ℕ) (s : State host) (sym_of : Symbol) (lib : ℕ) (w : World)
        → lib ≢ 0
        → f ≡ load_symb w sym_of lib
        → s.running ≡ true
        → (exported info sym_of true).0 ≡ true
        → (call_game host name f s ≡ some (after_call host name f s))
          × ((after_call host name f s).running ≡ true)
    unfolding after_call
    called name f s sym_of lib w n e on leaves = (
      call_game-eq host name f s (not_null sym_of lib w n e),
      ap (λ a. (host.call s.world a s.running).0) e
          ∙ h.runs s.world w sym_of lib s.running
          ∙ ap (λ b. (exported info sym_of b).0) on
          ∙ leaves,
    )

    same :
        (t : State host)
        → IsLoaded t.game
        → IsLoaded (after_call host update t.game.update_fn t).game
    unfolding after_call
    same t l = l

    finish_lost :
        (s : State host) (g : Game) (w : World)
        → IsPlayed s.calls
        → s.game.shutdown_fn ≡ 0
        → (reload host g w).0 ≡ false
        → s.world ≡ (reload host g w).2
        → IsUnended (some (finish host s))
    unfolding finish
    finish_lost s g w p z e at =
        rw (call_game_null host shutdown s.game.shutdown_fn s z, at) (lost g w p e)

    module _ (k : State host → Option (Result host))
        (rest : (s : State host)
          → s.running ≡ true
          → IsLoaded s.game
          → IsPlayed s.calls
          → IsUnended (k s)) where
      frame-IsUnended :
          (s : State host)
          → s.running ≡ true
          → IsLoaded s.game
          → IsPlayed s.calls
          → IsUnended (after_body host k (frame host s))
      unfolding frame exported on_update after_call
      frame-IsUnended s on l p =
          let s' : State host = record s {
            world = host.engine_update s.world;
            calls = s.calls ++ update_engine ∷ [];
          } in
          let (e, on') =
            called update s.game.update_fn s' game_on_update l.lib l.at l.found l.update_eq on
              refl in
          rw e (
            rest (after_call host update s.game.update_fn s') on' (same s' l)
              (framed p (not_null game_on_update l.lib l.at l.found l.update_eq)))

      reloaded-IsUnended :
          (s : State host) (g : Game) (w : World) (r : Bool × Game × World)
          → r ≡ reload host g w
          → s.running ≡ true
          → IsPlayed s.calls
          → Loads (unload host g w).0 r
          → IsUnended (after_body host k (reloaded host s r))
      unfolding reloaded
      reloaded-IsUnended s g w r e on p (whole g' w' l) = rest _ on l p
      reloaded-IsUnended s g w r e on p (kept g' w' z) =
          finish_lost _ g w p (z ∙ unload_shutdown g w) (ap (λ x. x.0) (sym e)) (ap (λ x. x.2) e)

      after_signal :
          (s : State host)
          → s.running ≡ true
          → IsLoaded s.game
          → IsPlayed s.calls
          → (r : Bool × World)
          → let s' = record s { world = r.1 } in
            IsUnended (
              after_body host k
                (if r.0 then reloaded host s' (reload host s.game r.1) else frame host s'))
      after_signal s on l p (true, w) =
          reloaded-IsUnended _ s.game w _ refl on p (reload-Loads s.game w)
      after_signal s on l p (false, w) = frame-IsUnended _ on l p

      body-IsUnended :
          (s : State host)
          → s.running ≡ true
          → IsLoaded s.game
          → IsPlayed s.calls
          → IsUnended (after_body host k (body host s))
      unfolding body
      body-IsUnended s on l p = after_signal s on l p (host.check_for_signal s.world)

    loop-IsUnended :
        (fuel : ℕ) (s : State host)
        → s.running ≡ true
        → IsLoaded s.game
        → IsPlayed s.calls
        → IsUnended (loop host fuel s)
    unfolding loop
    loop-IsUnended zero s on l p = goes_on
    loop-IsUnended (suc fuel) s on l p =
        rw (loop_running host fuel s on)
          (body-IsUnended (loop host fuel) (loop-IsUnended fuel) s on l p)

    play-IsUnended :
        (fuel : ℕ) (s : State host)
        → s.running ≡ true
        → IsLoaded s.game
        → s.calls ≡ initialize_engine ∷ []
        → IsUnended (play host fuel s)
    unfolding play exported on_init after_call
    play-IsUnended fuel s on l c =
        let (e, on') =
          called init s.game.init_fn s game_on_init l.lib l.at l.found l.init_eq on refl in
        let p : IsPlayed (after_call host init s.game.init_fn s).calls =
          rw c (begun (not_null game_on_init l.lib l.at l.found l.init_eq)) in
        rw e (loop-IsUnended fuel (after_call host init s.game.init_fn s) on' l p)

    launched :
        (fuel : ℕ) (g : Game) (r : Bool × Game × World)
        → Loads g r
        → IsUnended (launch_with host fuel r)
    unfolding launch_with
    launched fuel g r (whole g' w l) = play-IsUnended fuel (started host g' w) refl l refl
    launched fuel g r (kept g' w z) = unloaded w

    opened :
        (fuel : ℕ) (r : Bool × World)
        → IsUnended (if r.0 then launch host fuel r.1 else failure host [] r.1)
    unfolding launch
    opened fuel (true, w) =
        launched fuel (game game_module) _
          (load-Loads (game game_module) (host.engine_initialize w))
    opened fuel (false, w) = refused w

    -- With the example game, no number of turns brings `main` to an exit with 0 or to a call of the
    -- game's shutdown or the engine's: it goes on; or it returns -1, with no call made or after the
    -- engine's start alone; or it crashes where a reload has just failed, and its calls are the engine's
    -- start, the game's `init`, and for each frame the engine's update and the game's.
    pub main-IsUnended : (fuel argc : ℕ) (w : World) → IsUnended (main host fuel argc w)
    unfolding main
    main-IsUnended fuel argc w = elim (few_arguments argc) [
      | inl e ↦ rw e (refused w)
      | inr e ↦ rw e (opened fuel (host.start_server w))
    ]
