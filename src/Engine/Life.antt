-- ===== src/Engine/Life.antt =====
-- Frames between Engine::Initialize and Engine::Shutdown (Engine/src/delta/core/engine.cpp).
use project_delta.Prelude.{
  ℕ, ◌+◌, ◌*◌, ◌^◌, ◌≤◌, ◌<◌, ◌≡◌, ◌∙◌, refl, arith, ◌==◌, true, false, List, [], ◌∷◌,
}
use project_delta.Build.{Build}
use project_delta.Build.Ran.{ran}
use project_delta.ThreadContext.{Contexts}
use project_delta.Engine.{transient}
use project_delta.Engine.Session.{Session, engine_initialize, engine_update}
use project_delta.Engine.Started.{IsAble}
use project_delta.Engine.Running.{IsRunning, engine_initialize_cases}
use project_delta.Engine.Frames.{AllUpTo, run_frames}
use project_delta.Engine.Playing.{asked, updated, running-IsPlaying}
use project_delta.Engine.Stopped.{IsStopped, running-IsStopped}
use project_delta.Win32.{Win32, CoreInfo}
use project_delta.Win32.Cores.{IsLaid, cores}
use project_delta.Win32.Start.{buffer_of, answer_of}
use project_delta.Win32.Layer.{IsServing}
use project_delta.Win32.Threads.{Process}
use project_delta.Worker.Init.{Workers, new}
use project_delta.Worker.Room.{scratch_of}

module _ (sys : Win32) (build : Build) (h : IsServing sys) (worker_proc n : ℕ) where
  -- A request of up to 2 ^ 22 words, and an Update.
  pub frame-IsRunning :
      (words : ℕ) (s : Session sys build h)
      → words ≤ 2 ^ 22
      → IsRunning sys build h worker_proc n s
      → (p : ℕ) × (workers : Workers sys) × (s' : Session sys build h) × (new sys build h transient
            (words * 8)
            s.workers
          ≡ ran (p, workers))
        × (engine_update sys build h (record s { workers = workers }) ≡ ran s')
        × IsRunning sys build h worker_proc n s'
        × (s'.workers.globals.master_slab_start ≡ s.workers.globals.master_slab_start)
        × ((scratch_of s'.workers.globals).offset ≡ 0)
  frame-IsRunning words s le r =
      let (p, w, e, q, slab) =
        asked sys build h worker_proc n words 0 (2 ^ 22) s (omega (arith, le))
          (running-IsPlaying sys build h worker_proc n s r) in
      let (s', e', r', slab', start) =
        updated sys build h worker_proc n 0 (record s { workers = w }) q in
      (p, w, s', e, e', r', slab' ∙ slab, start)

  run_frames-IsRunning :
      (sizes : List ℕ) (s : Session sys build h)
      → AllUpTo (2 ^ 22) sizes
      → IsRunning sys build h worker_proc n s
      → (ps : List ℕ) × (s' : Session sys build h) × (run_frames sys build h sizes s ≡ ran (ps, s'))
        × IsRunning sys build h worker_proc n s'
        × (s'.workers.globals.master_slab_start ≡ s.workers.globals.master_slab_start)
  unfolding run_frames
  run_frames-IsRunning [] s few r = ([], s, refl, r, refl)
  run_frames-IsRunning (words ∷ rest) s (le, few) r =
      let (p, workers, s1, e, updated, r1, slab, _) = frame-IsRunning words s le r in
      let (ps, s2, e2, r2, slab2) = run_frames-IsRunning rest s1 few r1 in
      (p ∷ ps, s2, rw (e, updated, e2) refl, r2, slab2 ∙ slab)

  -- On a machine with `n + 1` cores, n < 32, whose records lie one behind another, pages of 4096 bytes, and a
  -- system that gives the memory, the threads and the time that it is asked for: Engine::Initialize, any
  -- number of frames, in each of which the game asks for up to 2 ^ 22 words of transient memory before
  -- Engine::Update, and Engine::Shutdown return in every build. Shutdown clears the configuration and
  -- releases the slab at the address where it was reserved. Before that it waits for `n` words: the thread
  -- handles of the workers' contexts, which are the addresses of words that are not 0, one behind the
  -- other; and it has asked no worker to end.
  pub lifetime-IsStopped :
      (count_offset : ℕ) (memory : Contexts)
      → IsAble sys 4096 (n + 1)
      → (p : Process sys) (records : List CoreInfo) (sizes : List ℕ)
      → ((buffer_of sys p.world).0 == 0) ≡ false
      → (answer_of sys p.world).0 ≡ true
      → IsLaid (answer_of sys p.world).2 (answer_of sys p.world).1 0 records
      → cores records ≡ n + 1
      → (sys.get_system_info p.world).0.page_size ≡ 4096
      → n < 32
      → AllUpTo (2 ^ 22) sizes
      → (s : Session sys build h) × (ps : List ℕ) × (s' : Session sys build h) × (address : ℕ)
        × (engine_initialize sys build h worker_proc count_offset memory p ≡ ran s)
        × (run_frames sys build h sizes s ≡ ran (ps, s'))
        × (s'.workers.globals.master_slab_start ≡ s.workers.globals.master_slab_start)
        × IsStopped sys build h n address s'
  lifetime-IsStopped count_offset memory able p records sizes given got lies count page few small =
      let (s, e, r) =
        (engine_initialize_cases sys build h worker_proc count_offset memory n (omega (arith, few))
            able p records given got lies count page).0
          few in
      let (ps, s', e', r', slab) = run_frames-IsRunning sizes s small r in
      let (address, stopped) = running-IsStopped sys build h n worker_proc s' r' in
      (s, ps, s', address, e, e', slab, stopped)
