-- ===== src/Launcher/Plays.antt =====
-- The engine (Engine/src/delta/core/engine.cpp) through the calls that the launcher (Launcher/main.cpp) and
-- the game make.
use project_delta.Prelude.{ℕ, ◌+◌, ◌^◌, ◌≤◌, ◌≡◌, ◌⊎◌, inl, inr, refl, ◌∙◌, arith, Bool, none, some}
use project_delta.Build.{Build}
use project_delta.Build.Ran.{ran}
use project_delta.ThreadContext.{Contexts}
use project_delta.Engine.Session.{Session}
use project_delta.Engine.Playing.{IsPlaying, asked, updated, fewer-IsPlaying, running-IsPlaying}
use project_delta.Win32.{Win32}
use project_delta.Win32.Layer.{IsServing}
use project_delta.Launcher.{Host}
use project_delta.Launcher.Load.{null_cases}
use project_delta.Launcher.Main.{Call, State, call_game}
use project_delta.Launcher.Loop.{after_call, call_game-eq, call_game_null}
use project_delta.Launcher.Hosted.{HostedWorld, ask, hosted}

module _ (host : Host) (sys : Win32) (build : Build) (h : IsServing sys)
    (worker_proc count_offset : ℕ) (memory : Contexts) (asks : host.World → ℕ → ℕ) (n : ℕ) where
  abbrev pub whole : Host
  whole = hosted host sys build h worker_proc count_offset memory asks

  -- The engine runs, with so many words left in the transient arena.
  pub record Plays (left : ℕ) (w : HostedWorld host sys build h) : Type 0 where
    pub session : Session sys build h
    pub engine_is : w.engine ≡ some (ran session)
    pub playing : IsPlaying sys build h worker_proc n left session

  pub fewer-Plays :
      (left less : ℕ) (w : HostedWorld host sys build h) → less ≤ left → Plays left w → Plays less w
  fewer-Plays left less w le q = record {
    session = q.session;
    engine_is = q.engine_is;
    playing = fewer-IsPlaying sys build h worker_proc n left less q.session le q.playing;
  }

  pub same-Plays :
      (left : ℕ) (w w' : HostedWorld host sys build h)
      → w'.engine ≡ w.engine
      → Plays left w
      → Plays left w'
  same-Plays left w w' e q = record {
    session = q.session;
    engine_is = e ∙ q.engine_is;
    playing = q.playing;
  }

  pub updated-Plays :
      (left : ℕ) (w : HostedWorld host sys build h)
      → Plays left w
      → Plays (2 ^ 22) (whole.engine_update w)
  updated-Plays left w q =
      let (s, e, r, _, _) = updated sys build h worker_proc n left q.session q.playing in
      record {
        session = s;
        engine_is = rw (q.engine_is, e) refl;
        playing = running-IsPlaying sys build h worker_proc n s r;
      }

  module _ (few : (w : host.World) (f : ℕ) → asks w f ≤ 2 ^ 20) where
    called-Plays :
        (left more : ℕ) (w : HostedWorld host sys build h) (f : ℕ) (running : Bool)
        → 2 ^ 20 + left ≤ more
        → Plays more w
        → Plays left (whole.call w f running).1
    unfolding ask
    called-Plays left more w f running le q =
        let (p, ws, e, playing, _) =
          asked sys build h worker_proc n (asks w.rest f) left more q.session
            (omega (arith, few w.rest f, le)) q.playing in
        record {
          session = record q.session { workers = ws };
          engine_is = rw (q.engine_is, e) refl;
          playing = playing;
        }

    pub call_cases :
        (name : ℕ → Call) (f left more : ℕ) (s : State whole)
        → 2 ^ 20 + left ≤ more
        → Plays more s.world
        → (call_game whole name f s ≡ none)
          ⊎ ((s' : State whole) × (call_game whole name f s ≡ some s') × Plays left s'.world)
    unfolding after_call
    call_cases name f left more s le q = elim (null_cases f) [
      | inl (z, _) ↦ inl (call_game_null whole name f s z)
      | inr (ne, _) ↦ inr (
        after_call whole name f s,
        call_game-eq whole name f s ne,
        called-Plays left more s.world f s.running le q,
      )
    ]
