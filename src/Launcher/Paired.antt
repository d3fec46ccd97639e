-- ===== src/Launcher/Paired.antt =====
-- The launcher's `main` (Launcher/main.cpp) with the engine (Engine/src/delta/core/engine.cpp): which engine is
-- left when it ends.
use mathlib.Core.Path.{subst}
use project_delta.Prelude.{
  ℕ, zero, suc, ◌+◌, ◌^◌, ◌≤◌, ◌<◌, ◌==◌, ◌≡◌, inl, inr, refl, ap, arith, if◌then◌else◌, Bool, true,
  false, Option, none, some, List, [],
}
use project_delta.Build.{Build}
use project_delta.Build.Ran.{Ran, ran}
use project_delta.ThreadContext.{Contexts}
use project_delta.Engine.Session.{Session, engine_shutdown}
use project_delta.Engine.Running.{engine_initialize_cases}
use project_delta.Engine.Started.{IsAble}
use project_delta.Engine.Stopped.{IsStopped}
use project_delta.Engine.Playing.{running-IsPlaying, playing-IsStopped}
use project_delta.Win32.{Win32, CoreInfo}
use project_delta.Win32.Cores.{IsLaid, cores}
use project_delta.Win32.Start.{buffer_of, answer_of}
use project_delta.Win32.Layer.{IsServing}
use project_delta.Launcher.{Host, Game, game, game_module, load, reload}
use project_delta.Launcher.Main.{
  Call, init, update, shutdown, exited, failed, crashed, State, Result, call_game, finish, Next,
  continues, breaks, crashes, frame, reloaded, body, after_body, after_update, loop, play,
  launch_with, launch, started, main,
}
use project_delta.Launcher.Loop.{IsSession, main-IsSession, few_arguments}
use project_delta.Launcher.Kept.{IsApart, load-part, reload-part}
use project_delta.Launcher.Plays.{Plays, fewer-Plays, same-Plays, updated-Plays, call_cases}
use project_delta.Launcher.Hosted.{HostedWorld, hosted}

module _ (host : Host) (sys : Win32) (build : Build) (h : IsServing sys)
    (worker_proc count_offset : ℕ) (memory : Contexts) (asks : host.World → ℕ → ℕ) (n : ℕ) where
  abbrev EnginePlays : ℕ → HostedWorld host sys build h → Type 0
  EnginePlays = Plays host sys build h worker_proc count_offset memory asks n

  abbrev whole : Host
  whole = hosted host sys build h worker_proc count_offset memory asks

  -- What `main` comes to: nothing yet; -1 before the engine's start; -1 with the engine left running, as the
  -- game was not loaded; 0 with the engine shut down; or a crash with the engine left running.
  pub data IsPaired : Option (Result whole) → Type 0 where
    goes_on : IsPaired none
    unstarted :
        (cs : List Call) (w : HostedWorld host sys build h)
        → w.engine ≡ none
        → IsPaired (some (record { ending = failed; calls = cs; world = w }))
    unplayed :
        (cs : List Call) (w : HostedWorld host sys build h)
        → EnginePlays 0 w
        → IsPaired (some (record { ending = failed; calls = cs; world = w }))
    closed :
        (cs : List Call) (w : HostedWorld host sys build h) (s : Session sys build h) (address : ℕ)
        → w.engine ≡ some (ran (engine_shutdown sys build h s))
        → IsStopped sys build h n address s
        → IsPaired (some (record { ending = exited 0; calls = cs; world = w }))
    lost :
        (cs : List Call) (w : HostedWorld host sys build h)
        → EnginePlays 0 w
        → IsPaired (some (record { ending = crashed; calls = cs; world = w }))

  module _ (few : (w : host.World) (f : ℕ) → asks w f ≤ 2 ^ 20) where
    finish-IsPaired :
        (s : State whole) → EnginePlays (2 ^ 21) s.world → IsPaired (some (finish whole s))
    unfolding finish
    finish-IsPaired s q =
        elim (call_cases host sys build h worker_proc count_offset memory asks n few shutdown
          s.game.shutdown_fn 0 (2 ^ 21) s (omega arith) q) [
            | inl e ↦ rw e (
                lost _ _ (
                  fewer-Plays host sys build h worker_proc count_offset memory asks n (2 ^ 21) 0
                    s.world (omega arith) q))
            | inr (s', e, q') ↦
                let (address, stopped) =
                  playing-IsStopped sys build h worker_proc n 0 q'.session q'.playing in
                rw e (closed _ _ q'.session address (rw q'.engine_is refl) stopped)
          ]

    data IsGood : Next whole → Type 0 where
      goes : (s : State whole) → EnginePlays (2 ^ 21) s.world → IsGood (continues s)
      stops : (s : State whole) → EnginePlays (2 ^ 21) s.world → IsGood (breaks s)
      fails : (s : State whole) → EnginePlays 0 s.world → IsGood (crashes s)

    after_update-IsGood :
        (name : ℕ → Call) (f : ℕ) (s : State whole)
        → EnginePlays (2 ^ 22) s.world
        → IsGood (after_update whole s (call_game whole name f s))
    after_update-IsGood name f s q =
        elim (call_cases host sys build h worker_proc count_offset memory asks n few name f (2 ^ 21)
          (2 ^ 22) s (omega arith) q) [
            | inl e ↦ rw e (
                fails s (
                  fewer-Plays host sys build h worker_proc count_offset memory asks n (2 ^ 22) 0
                    s.world (omega arith) q))
            | inr (s', e, q') ↦ rw e (goes s' q')
          ]

    frame-IsGood : (s : State whole) → EnginePlays (2 ^ 21) s.world → IsGood (frame whole s)
    unfolding frame
    frame-IsGood s q =
        after_update-IsGood update s.game.update_fn _
          (updated-Plays host sys build h worker_proc count_offset memory asks n (2 ^ 21) s.world q)

    engine_of-IsApart : IsApart whole (Option (Ran (Session sys build h))) (λ w. w.engine)
    engine_of-IsApart = record {
      copy = λ w f g. refl;
      load_lib = λ w f. refl;
      unload_lib = λ w lib. refl;
    }

    reloaded-IsGood :
        (s : State whole) (r : Bool × Game × HostedWorld host sys build h)
        → EnginePlays (2 ^ 21) r.2
        → IsGood (reloaded whole s r)
    unfolding reloaded
    reloaded-IsGood s (true, g, w) q = goes _ q
    reloaded-IsGood s (false, g, w) q = stops _ q

    after_signal :
        (s : State whole) (r : Bool × HostedWorld host sys build h)
        → EnginePlays (2 ^ 21) r.1
        → let s' = record s { world = r.1 } in
          IsGood (if r.0 then reloaded whole s' (reload whole s.game r.1) else frame whole s')
    after_signal s (true, w) q = reloaded-IsGood _ _ (
        same-Plays host sys build h worker_proc count_offset memory asks n (2 ^ 21) w _
          (reload-part whole (Option (Ran (Session sys build h))) (λ w. w.engine) engine_of-IsApart
            s.game w)
          q)
    after_signal s (false, w) q = frame-IsGood _ q

    body-IsGood : (s : State whole) → EnginePlays (2 ^ 21) s.world → IsGood (body whole s)
    unfolding body
    body-IsGood s q = after_signal s (whole.check_for_signal s.world) (
        same-Plays host sys build h worker_proc count_offset memory asks n (2 ^ 21) s.world _ refl
          q)

    after_body-IsPaired :
        (k : State whole → Option (Result whole)) (m : Next whole)
        → IsGood m
        → ((s : State whole) → EnginePlays (2 ^ 21) s.world → IsPaired (k s))
        → IsPaired (after_body whole k m)
    after_body-IsPaired k m (goes s q) rest = rest s q
    after_body-IsPaired k m (stops s q) rest = finish-IsPaired s q
    after_body-IsPaired k m (fails s q) rest = lost _ _ q

    both :
        (b : Bool) (x y : Option (Result whole))
        → IsPaired x
        → IsPaired y
        → IsPaired (if b then x else y)
    both true x y p q = p
    both false x y p q = q

    loop-IsPaired :
        (fuel : ℕ) (s : State whole) → EnginePlays (2 ^ 21) s.world → IsPaired (loop whole fuel s)
    unfolding loop
    loop-IsPaired zero s q = goes_on
    loop-IsPaired (suc fuel) s q =
        both s.running _ _
          (after_body-IsPaired (loop whole fuel) (body whole s) (body-IsGood s q)
            (loop-IsPaired fuel))
          (finish-IsPaired s q)

    play-IsPaired :
        (fuel : ℕ) (s : State whole) → EnginePlays (2 ^ 22) s.world → IsPaired (play whole fuel s)
    unfolding play
    play-IsPaired fuel s q =
        after_body-IsPaired (loop whole fuel) _ (after_update-IsGood init s.game.init_fn s q)
          (loop-IsPaired fuel)

    launched :
        (fuel : ℕ) (r : Bool × Game × HostedWorld host sys build h)
        → EnginePlays (2 ^ 22) r.2
        → IsPaired (launch_with whole fuel r)
    unfolding launch_with
    launched fuel (true, g, w) q = play-IsPaired fuel (started whole g w) q
    launched fuel (false, g, w) q = unplayed _ w (
        fewer-Plays host sys build h worker_proc count_offset memory asks n (2 ^ 22) 0 w
          (omega arith) q)

    -- Whatever the number of turns.
    main-IsPaired :
        IsAble sys 4096 (n + 1)
        → n < 32
        → (fuel argc : ℕ) (w : HostedWorld host sys build h) (records : List CoreInfo)
        → ((buffer_of sys w.process.world).0 == 0) ≡ false
        → (answer_of sys w.process.world).0 ≡ true
        → IsLaid (answer_of sys w.process.world).2 (answer_of sys w.process.world).1 0 records
        → cores records ≡ n + 1
        → (sys.get_system_info w.process.world).0.page_size ≡ 4096
        → w.engine ≡ none
        → IsPaired (main whole fuel argc w)
    unfolding main launch
    main-IsPaired able small fuel argc w records given got lies count page off =
        let (s, e, r) =
          (engine_initialize_cases sys build h worker_proc count_offset memory n
              (omega (arith, small)) able w.process records given got lies count page).0
            small in
        let w' : HostedWorld host sys build h = (whole.start_server w).1 in
        let begun : HostedWorld host sys build h = whole.engine_initialize w' in
        let plays : EnginePlays (2 ^ 22) begun = record {
          session = s;
          engine_is = ap some e;
          playing = running-IsPlaying sys build h worker_proc n s r;
        } in
        elim (few_arguments argc) [
          | inl few_given ↦ rw few_given (unstarted [] w off)
          | inr enough ↦ rw enough (
              both (whole.start_server w).0 _ _
                (launched fuel (load whole (game game_module) begun) (
                  same-Plays host sys build h worker_proc count_offset memory asks n (2 ^ 22) begun
                    _
                    (load-part whole (Option (Ran (Session sys build h))) (λ w. w.engine)
                      engine_of-IsApart (game game_module) begun)
                    plays))
                (unstarted [] w' off))
        ]

    -- On a machine with `n + 1` cores, n < 32, whose records lie one behind another, pages of 4096 bytes, and a
    -- system that gives the memory, the threads and the time that it is asked for, with a game whose
    -- functions ask for up to 2 ^ 20 words of transient memory at each call, if some number falls with
    -- each turn of the loop that leaves the game running: the launcher's `main` ends, and its calls are a
    -- session. If it ends with 0, the engine has been shut down and the slab released; if it ends with
    -- -1, the engine has not been started or is left running; if it crashes, the engine is left running.
    pub main-IsSession-IsPaired :
        IsAble sys 4096 (n + 1)
        → n < 32
        → (rank : State whole → ℕ)
        → ((s s' : State whole)
            → body whole s ≡ continues s'
            → s'.running ≡ true
            → rank s' < rank s)
        → (argc : ℕ) (w : HostedWorld host sys build h) (records : List CoreInfo)
        → ((buffer_of sys w.process.world).0 == 0) ≡ false
        → (answer_of sys w.process.world).0 ≡ true
        → IsLaid (answer_of sys w.process.world).2 (answer_of sys w.process.world).1 0 records
        → cores records ≡ n + 1
        → (sys.get_system_info w.process.world).0.page_size ≡ 4096
        → w.engine ≡ none
        → (fuel : ℕ) × (r : Result whole) × (main whole fuel argc w ≡ some r)
          × IsSession whole r
          × IsPaired (some r)
    main-IsSession-IsPaired able small rank shrinks argc w records given got lies count page off =
        let (fuel, r, e, session) = main-IsSession whole rank shrinks argc w in
        (
          fuel,
          r,
          e,
          session,
          subst IsPaired e
              (main-IsPaired able small fuel argc w records given got lies count page off),
        )
