-- ===== src/Launcher/Loop.antt =====
-- `main` of Launcher/main.cpp: which calls it makes, in which order, and how it ends.
use project_delta.Prelude.{
  ℕ, zero, suc, ◌<◌, ◌≡◌, ◌≢◌, ◌⊎◌, inl, inr, refl, ap, sym, ◌∙◌, Option, arith, ltb, ◌++◌,
  if◌then◌else◌, Bool, true, false, none, some, List, [], ◌∷◌,
}
use project_delta.Launcher.{Host, Game, game, game_module, make_shadow_copy, load, unload, reload}
use project_delta.Launcher.Main.{
  Call, initialize_engine, update_engine, shutdown_engine, init, update, shutdown, exited, failed,
  crashed, State, Result, call_game, finish, Next, continues, breaks, frame, reloaded, body,
  after_body, loop, play, launch, launch_with, failure, main,
}
use project_delta.Launcher.Load.{
  Loads, complete, absent, partial, IsPlayable, IsMissing, null_cases, load_cases, reload_cases,
}

-- The calls up to some point in the loop: the engine's start, the game's `init` once, and then for
-- each frame the engine's update and the game's. No function that is called is null.
pub data IsPlayed : List Call → Type 0 where
  begun : {f : ℕ} → f ≢ 0 → IsPlayed (initialize_engine ∷ init f ∷ [])
  framed :
      {cs : List Call} {f : ℕ}
      → IsPlayed cs
      → f ≢ 0
      → IsPlayed ((cs ++ update_engine ∷ []) ++ update f ∷ [])

pub few_arguments : (argc : ℕ) → (ltb argc 2 ≡ true) ⊎ (ltb argc 2 ≡ false)
few_arguments argc = ground arith

module _ (host : Host) where
  -- A whole run: refused before or after the engine's start, played to the end and shut down in
  -- order, or crashed at the end of the loop, where a reload failed, without a shutdown.
  pub data IsSession : Result host → Type 0 where
    refused : (w : host.World) → IsSession (record { ending = failed; calls = []; world = w })
    unloaded :
        (w : host.World)
        → IsSession (record { ending = failed; calls = initialize_engine ∷ []; world = w })
    completed :
        {cs : List Call} {f : ℕ} {w : host.World}
        → IsPlayed cs
        → f ≢ 0
        → IsSession (record {
          ending = exited 0;
          calls = (cs ++ shutdown f ∷ []) ++ shutdown_engine ∷ [];
          world = w;
        })
    lost :
        {cs : List Call} (g : Game) (w : host.World)
        → IsPlayed cs
        → (reload host g w).0 ≡ false
        → IsSession (record { ending = crashed; calls = cs; world = (reload host g w).2 })

  unfoldable pub after_call : (ℕ → Call) → ℕ → State host → State host
  after_call name f s =
      let r = host.call s.world f s.running in
      record s { running = r.0; world = r.1; calls = s.calls ++ name f ∷ [] }

  pub call_game-eq :
      (name : ℕ → Call) (f : ℕ) (s : State host)
      → f ≢ 0
      → call_game host name f s ≡ some (after_call name f s)
  unfolding call_game after_call
  call_game-eq name f s n = ground arith

  pub call_game_null :
      (name : ℕ → Call) (f : ℕ) (s : State host) → f ≡ 0 → call_game host name f s ≡ none
  unfolding call_game
  call_game_null name f s z = ground arith

  finish_played :
      (s : State host) → IsPlayed s.calls → s.game.shutdown_fn ≢ 0 → IsSession (finish host s)
  unfolding finish after_call
  finish_played s p n = rw (call_game-eq shutdown s.game.shutdown_fn s n) (completed p n)

  data IsNext : Next host → Type 0 where
    goes : (s' : State host) → IsPlayed s'.calls → IsPlayable s'.game → IsNext (continues s')
    stops :
        (s' : State host) (g : Game) (w : host.World)
        → IsPlayed s'.calls
        → (reload host g w).0 ≡ false
        → s'.world ≡ (reload host g w).2
        → IsNext (breaks s')

  frame-IsNext : (s : State host) → IsPlayed s.calls → IsPlayable s.game → IsNext (frame host s)
  unfolding frame after_call
  frame-IsNext s p g = rw (call_game-eq update s.game.update_fn _ g.update) (
      goes _ (framed p g.update) record { init = g.init; update = g.update; shutdown = g.shutdown })

  reloaded-IsNext :
      (s : State host) (g : Game) (w : host.World) (r : Bool × Game × host.World)
      → r ≡ reload host g w
      → ((r.0 ≡ true) × IsPlayable r.1) ⊎ ((r.0 ≡ false) × IsMissing r.1)
      → IsPlayed s.calls
      → IsNext (reloaded host s r)
  unfolding reloaded
  reloaded-IsNext s g w (true, g', w') e (inl (_, h)) p = goes _ p h
  reloaded-IsNext s g w (true, g', w') e (inr (f, h)) p = cc
  reloaded-IsNext s g w (false, g', w') e (inl (f, h)) p = cc
  reloaded-IsNext s g w (false, g', w') e (inr (f, h)) p =
      stops _ g w p (ap (λ r. r.0) (sym e)) (ap (λ r. r.2) e)

  after_signal :
      (s : State host)
      → IsPlayed s.calls
      → IsPlayable s.game
      → (r : Bool × host.World)
      → let s' = record s { world = r.1 } in
        IsNext (if r.0 then reloaded host s' (reload host s.game r.1) else frame host s')
  after_signal s p g (true, w) = reloaded-IsNext _ s.game w _ refl (reload_cases host s.game w) p
  after_signal s p g (false, w) = frame-IsNext _ p g

  body-IsNext : (s : State host) → IsPlayed s.calls → IsPlayable s.game → IsNext (body host s)
  unfolding body
  body-IsNext s p g = after_signal s p g (host.check_for_signal s.world)

  broken :
      (s : State host) (g : Game) (w : host.World)
      → IsPlayed s.calls
      → (reload host g w).0 ≡ false
      → s.world ≡ (reload host g w).2
      → IsSession (finish host s)
  unfolding finish
  broken s g w p f e = elim (null_cases s.game.shutdown_fn) [
    | inl (z, _) ↦ rw (call_game_null shutdown s.game.shutdown_fn s z, e) (lost g w p f)
    | inr (n, _) ↦ finish_played s p n
  ]

  Ends : Option (Result host) → Type 0
  Ends o = (r : Result host) × (o ≡ some r) × IsSession r

  after_body-Ends :
      (k : State host → Option (Result host)) (n : Next host)
      → IsNext n
      → ((s : State host) → n ≡ continues s → IsPlayed s.calls → IsPlayable s.game → Ends (k s))
      → Ends (after_body host k n)
  unfolding Ends
  after_body-Ends k n (goes s p g) rest = rest s refl p g
  after_body-Ends k n (stops s g w p f we) rest = (_, refl, broken s g w p f we)

  pub loop_running :
      (fuel : ℕ) (s : State host)
      → s.running ≡ true
      → loop host (suc fuel) s ≡ after_body host (loop host fuel) (body host s)
  unfolding loop
  loop_running fuel s e =
      ap (λ b. if b then after_body host (loop host fuel) (body host s) else some (finish host s)) e

  loop_stopped :
      (fuel : ℕ) (s : State host)
      → s.running ≡ false
      → loop host (suc fuel) s ≡ some (finish host s)
  unfolding loop
  loop_stopped fuel s e =
      ap (λ b. if b then after_body host (loop host fuel) (body host s) else some (finish host s)) e

  copy_missing :
      (g : Game) (w : host.World)
      → host.exists w g.module_path ≡ some false
      → make_shadow_copy host g w ≡ (false, w)
  unfolding make_shadow_copy
  copy_missing g w e = rw e refl

  load_missing :
      (g : Game) (w : host.World)
      → host.exists w g.module_path ≡ some false
      → load host g w ≡ (false, g, w)
  unfolding load
  load_missing g w e = rw (copy_missing g w e) refl

  reload_missing :
      (g : Game) (w : host.World)
      → host.exists (host.unload_lib w g.dll) g.module_path ≡ some false
      → reload host g w ≡ (false, (unload host g w).0, (unload host g w).1)
  unfolding reload unload
  reload_missing g w e = load_missing (unload host g w).0 (host.unload_lib w g.dll) e

  -- A reload while the module's file is missing, as when it is being written again, ends the process
  -- in a call through null: the old functions are gone before the file is looked for, the loop is
  -- left, and neither the game's shutdown nor the engine's is made.
  pub loop-crashed :
      (fuel : ℕ) (s : State host)
      → s.running ≡ true
      → (host.check_for_signal s.world).0 ≡ true
      → host.exists
          (host.unload_lib (host.check_for_signal s.world).1 s.game.dll)
          s.game.module_path
        ≡ some false
      → (r : Result host) × (loop host (suc fuel) s ≡ some r)
        × (r.ending ≡ crashed)
        × (r.calls ≡ s.calls)
  unfolding body reload unload load make_shadow_copy reloaded finish call_game
  loop-crashed fuel s on signal missing =
      let w = host.unload_lib (host.check_for_signal s.world).1 s.game.dll in
      (
        record { ending = crashed; calls = s.calls; world = w },
        loop_running fuel s on ∙ rw (signal, reload_missing s.game _ missing) refl,
        refl,
        refl,
      )

  -- Where some number falls with each turn that leaves the game running, the loop ends.
  module _ (rank : State host → ℕ)
      (shrinks : (s s' : State host)
        → body host s ≡ continues s'
        → s'.running ≡ true
        → rank s' < rank s) where
    loop-Ends :
        (fuel : ℕ) (s : State host)
        → IsPlayed s.calls
        → IsPlayable s.game
        → (s.running ≡ true → rank s < fuel)
        → (b : Bool) → s.running ≡ b
        → Ends (loop host (suc fuel) s)
    unfolding Ends
    loop-Ends fuel s p g h false e = (_, loop_stopped fuel s e, finish_played s p g.shutdown)
    loop-Ends zero s p g h true e = absurd (omega (arith, h e))
    loop-Ends (suc fuel) s p g h true e =
        let (r, f, x) =
          after_body-Ends (loop host (suc fuel)) (body host s) (body-IsNext s p g) λ s' e' p' g'.
            loop-Ends fuel s' p' g' (λ on. omega (arith, h e, shrinks s s' e' on)) s'.running
              refl in
        (r, loop_running (suc fuel) s e ∙ f, x)

    play-Ends :
        (s : State host)
        → s.calls ≡ initialize_engine ∷ []
        → IsPlayable s.game
        → (fuel : ℕ) × Ends (play host fuel s)
    unfolding Ends play after_call
    play-Ends s e g =
        let s' = after_call init s.game.init_fn s in
        let p : IsPlayed s'.calls = rw e (begun g.init) in
        let g' : IsPlayable s'.game = record {
          init = g.init;
          update = g.update;
          shutdown = g.shutdown;
        } in
        let (r, f, x) = loop-Ends (suc (rank s')) s' p g' (λ _. omega arith) s'.running refl in
        (suc (suc (rank s')), (r, rw (call_game-eq init s.game.init_fn s g.init) f, x))

    launched :
        (r : Bool × Game × host.World)
        → Loads host (game game_module) r
        → (fuel : ℕ) × Ends (launch_with host fuel r)
    unfolding launch_with Ends
    launched r (complete g w p) = play-Ends _ refl p
    launched r (absent lib w) = (0, (_, refl, unloaded w))
    launched r (partial g w m) = (0, (_, refl, unloaded w))

    opened :
        (r : Bool × host.World)
        → (fuel : ℕ) × Ends (if r.0 then launch host fuel r.1 else failure host [] r.1)
    unfolding Ends launch
    opened (true, w) = launched _ (load_cases host (game game_module) (host.engine_initialize w))
    opened (false, w) = (0, (_, refl, refused w))

    -- `main` ends, and what it has called by then is a session: nothing where the arguments or the
    -- socket fail; the engine's start alone where the game is not loaded; and otherwise the start,
    -- the game's `init` once, for each frame the engine's update and the game's, and then either the
    -- game's shutdown and the engine's, or, after a reload that failed, a crash with neither.
    pub main-IsSession :
        (argc : ℕ) (w : host.World)
        → (fuel : ℕ) × (r : Result host) × (main host fuel argc w ≡ some r) × IsSession r
    unfolding main Ends
    main-IsSession argc w = elim (few_arguments argc) [
      | inl e ↦ (0, _, rw e refl, refused w)
      | inr e ↦ let (fuel, o) = opened (host.start_server w) in (fuel, o.0, rw e o.1, o.2)
    ]
