-- ===== src/Launcher/Main.antt =====
-- `main` of Launcher/main.cpp. Each step is recorded, so that the order of the calls can be stated.
use project_delta.Prelude.{
  ℕ, zero, suc, Bool, true, false, ◌==◌, ltb, if◌then◌else◌, Option, none, some, List, [], ◌∷◌,
  ◌++◌,
}
use project_delta.Launcher.{Host, Game, game_module, game, load, reload}

pub data Call : Type 0 where
  initialize_engine update_engine shutdown_engine : Call
  init update shutdown : ℕ → Call

-- How the process ends: with an exit code, or in a call through a null pointer.
pub data Ending : Type 0 where
  exited : ℕ → Ending
  failed : Ending  -- -1
  crashed : Ending

module _ (host : Host) where
  open host use {
    World, start_server, check_for_signal, engine_initialize, engine_update, engine_shutdown, call,
  }

  pub record State : Type 0 where
    pub game : Game
    pub running : Bool
    pub world : World
    pub calls : List Call

  pub record Result : Type 0 where
    pub ending : Ending
    pub calls : List Call
    pub world : World

  abbrev pub record_call : Call → State → State
  record_call c s = record s { calls = s.calls ++ c ∷ [] }

  -- `fn(&g_context)`; `none` is a call through null.
  unfoldable pub call_game : (ℕ → Call) → ℕ → State → Option State
  call_game name fn s =
      if fn == 0
      then none
      else let (running, w) = call s.world fn s.running in
        some (record s { running = running; world = w; calls = s.calls ++ name fn ∷ [] })

  -- `none` as crash.
  abbrev pub or_crash : State → Option State → (State → Result) → Result
  or_crash s none k = record { ending = crashed; calls = s.calls; world = s.world }
  or_crash s (some s') k = k s'

  -- What follows the loop.
  unfoldable pub finish : State → Result
  finish s = or_crash s (call_game shutdown s.game.shutdown_fn s) λ s'. record {
    ending = exited 0;
    calls = s'.calls ++ shutdown_engine ∷ [];
    world = engine_shutdown s'.world;
  }

  -- The body of the loop: go on with a state, leave the loop with one, or crash.
  pub data Next : Type 0 where
    continues breaks : State → Next
    crashes : State → Next

  abbrev pub after_update : State → Option State → Next
  after_update s none = crashes s
  after_update s (some s') = continues s'

  unfoldable pub frame : State → Next
  frame s =
      let s' = record s { world = engine_update s.world; calls = s.calls ++ update_engine ∷ [] } in
      after_update s' (call_game update s.game.update_fn s')

  unfoldable pub reloaded : State → Bool × Game × World → Next
  reloaded s (true, g, w) = continues (record s { game = g; world = w })
  reloaded s (false, g, w) = breaks (record s { game = g; world = w })

  unfoldable pub body : State → Next
  body s =
      let (signal, w) = check_for_signal s.world in
      let s' = record s { world = w } in
      if signal then reloaded s' (reload host s.game w) else frame s'

  abbrev pub after_body : (State → Option Result) → Next → Option Result
  after_body k (continues s) = k s
  after_body k (breaks s) = some (finish s)
  after_body k (crashes s) = some (record { ending = crashed; calls = s.calls; world = s.world })

  -- The loop; `none` means that the fuel ran out.
  unfoldable pub loop : ℕ → State → Option Result
  loop zero s = none
  loop (suc fuel) s = if s.running then after_body (loop fuel) (body s) else some (finish s)

  abbrev pub failure : List Call → World → Option Result
  failure cs w = some (record { ending = failed; calls = cs; world = w })

  -- `main` from `game.initFn(&g_context)` on.
  unfoldable pub play : ℕ → State → Option Result
  play fuel s = after_body (loop fuel) (after_update s (call_game init s.game.init_fn s))

  -- Engine::Initialize sets `isRunning`.
  abbrev pub started : Game → World → State
  started g w = record { game = g; running = true; world = w; calls = initialize_engine ∷ [] }

  unfoldable pub launch_with : ℕ → Bool × Game × World → Option Result
  launch_with fuel (true, g, w) = play fuel (started g w)
  launch_with fuel (false, g, w) = failure (initialize_engine ∷ []) w

  -- `main` once the socket is open.
  unfoldable pub launch : ℕ → World → Option Result
  launch fuel w = launch_with fuel (load host (game game_module) (engine_initialize w))

  -- `main` with `argc` arguments.
  unfoldable pub main : ℕ → ℕ → World → Option Result
  main fuel argc w =
      if ltb argc 2
      then failure [] w
      else let (opened, w') = start_server w in if opened then launch fuel w' else failure [] w'
