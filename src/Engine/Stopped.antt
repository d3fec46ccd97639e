-- ===== src/Engine/Stopped.antt =====
-- Engine::Shutdown (Engine/src/delta/core/engine.cpp) of an engine that Engine::Initialize has started.
use project_delta.Prelude.{
  ℕ, zero, suc, ◌+◌, ◌*◌, ◌≤◌, ◌<◌, ◌≡◌, ◌≢◌, ◌∙◌, refl, ap, arith, false, List, [], ◌∷◌,
}
use project_delta.Build.{Build}
use project_delta.MemoryConfig.{memory_config_shutdown}
use project_delta.ThreadContext.{thread_context_shutdown}
use project_delta.Engine.Session.{Session, engine_shutdown}
use project_delta.Engine.Running.{IsRunning}
use project_delta.Win32.{Win32}
use project_delta.Win32.Memory.{memory_release}
use project_delta.Win32.Layer.{IsServing}
use project_delta.Win32.Threads.{Process, words_at, thread_join_multiple}
use project_delta.Worker.Listed.{IsListed}
use project_delta.Worker.Init.{worker_shutdown}

-- So many words, one behind the other.
abbrev pub spaced : ℕ → ℕ → List ℕ
spaced zero address = []
spaced (suc n) address = address ∷ spaced n (address + 8)

module _ (sys : Win32) where
  words_at-spaced :
      (n address target : ℕ) (p : Process sys)
      → ((j : ℕ) → j < n → p.word (address + 8 * j) ≡ target + 8 * j)
      → words_at sys n address p ≡ spaced n target
  unfolding words_at
  words_at-spaced zero address target p all = refl
  words_at-spaced (suc n) address target p all =
      let here : address ≡ address + 8 * 0 = omega arith in
      let first : p.word address ≡ target = ap p.word here ∙ omega (arith, all 0 (omega arith)) in
      let rest = words_at-spaced n (address + 8) (target + 8) p λ j lt.
        let further : address + 8 + 8 * j ≡ address + 8 * suc j = omega arith in
        ap p.word further ∙ omega (arith, all (suc j) (omega (arith, lt))) in
      rw (first, rest) refl

  module _ (build : Build) (h : IsServing sys) (n : ℕ) where
    -- What Engine::Shutdown makes of a running engine: the world after the wait for the words at
    -- `address` and the release of the slab.
    pub record IsStopped (address : ℕ) (s : Session sys build h) : Type 0 where
      pub world :
          (engine_shutdown sys build h s).workers.process.world
          ≡ memory_release sys
              (sys.wait_for_multiple_objects s.workers.process.world (spaced n address))
              s.workers.globals.master_slab_start
      pub config : (engine_shutdown sys build h s).config ≡ memory_config_shutdown
      pub still_open :
          (j : ℕ)
          → 0 < j
          → j ≤ n
          → ((engine_shutdown sys build h s).workers.globals.contexts.worker_context j).should_close
            ≡ false
      pub handle_of :
          (j : ℕ)
          → j < n
          → (s.workers.globals.contexts.worker_context (j + 1)).generic.thread_handle
            ≡ address + 8 * j
      pub handle_at : (j : ℕ) → j < n → s.workers.process.word (address + 8 * j) ≢ 0

    pub listed-IsStopped :
        (worker_proc cs : ℕ) (s : Session sys build h)
        → s.workers.s_worker_count ≡ n
        → s.workers.globals.thread_contexts ≡ s.workers.globals.master_slab_start
        → ((j : ℕ)
            → 0 < j
            → j ≤ n
            → (s.workers.globals.contexts.worker_context j).should_close ≡ false)
        → IsListed sys worker_proc n n cs s.workers
        → (address : ℕ) × IsStopped address s
    unfolding engine_shutdown worker_shutdown thread_join_multiple thread_context_shutdown
    listed-IsStopped worker_proc cs s count contexts_at still_open l =
        let t = s.workers.s_threads in
        let listed = words_at-spaced n t (t + 8 * n) s.workers.process l.listed in
        (
          t + 8 * n,
          record {
            world = rw (l.made, count, listed, contexts_at) refl;
            config = refl;
            still_open = still_open;
            handle_of = l.handle_of;
            handle_at = l.handle_at;
          },
        )

    pub running-IsStopped :
        (worker_proc : ℕ) (s : Session sys build h)
        → IsRunning sys build h worker_proc n s
        → (address : ℕ) × IsStopped address s
    running-IsStopped worker_proc s r =
        listed-IsStopped worker_proc r.listed.0 s r.threads_counted r.contexts_at
          (λ j lo hi. (r.manned.holds j lo hi).not_closing) r.listed.1
