-- ===== src/Tests/Starting.antt =====
-- The engine (Engine/src/delta/core/engine.cpp) on a machine with two cores.
use mathlib.Core.List.{Perm}
use project_delta.Prelude.{
  ℕ, ◌+◌, ◌^◌, ◌<◌, ◌≤◌, ◌≡◌, refl, arith, true, some, List, [], ◌∷◌, length,
}
use project_delta.Build.{debug, release, returns}
use project_delta.Build.Ran.{ran, undefined}
use project_delta.EngineTypes.{Job, ThreadArena}
use project_delta.EngineTypes.Sizes.{thread_execution_context_size}
use project_delta.MemoryConfig.{memory_config_shutdown, plan, raw_lock_budget, precomputable_const}
use project_delta.Word.{align}
use project_delta.Arena.Fast.{HasRoom}
use project_delta.TaskQueue.{Store}
use project_delta.Scheduler.{State}
use project_delta.Scheduler.Once.{run_batch}
use project_delta.Engine.Session.{Session, engine_initialize}
use project_delta.Engine.Started.{IsAble}
use project_delta.Engine.Running.{IsRunning, engine_initialize_cases}
use project_delta.Engine.Stopped.{IsStopped}
use project_delta.Engine.Life.{lifetime-IsStopped}
use project_delta.Engine.Batch.{loaded, initialized_runs_batch}
use project_delta.Engine.Frames.{AllAt, run_frames, run_frames-AllAt}
use project_delta.Win32.Cores.{cores}
use project_delta.Win32.Layer.{IsServing}
use project_delta.Win32.Threads.{Process}
use project_delta.Win32.Memory.{get_memory_status}
use project_delta.Worker.Room.{HasArenas, scratch_of}
use project_delta.Tests.Batch.{Mem-HaveTasks}
use project_delta.Tests.Contexts.{zero_contexts}
use project_delta.Tests.Windows.{machine, two_cores, nothing_open, both_cores-IsLaid}

pub machine-IsServing : IsServing (machine true)
machine-IsServing = record { gives = λ w size. refl; counts = λ w. refl }

pub machine-IsAble : IsAble (machine true) 4096 2
unfolding plan raw_lock_budget precomputable_const thread_execution_context_size align
    get_memory_status
machine-IsAble = record {
  current = λ w. refl;
  creates = λ w info. refl;
  commits = λ w p n type protect. ground arith;
  keeps = λ w p n positive whole. ground (arith, positive);
  aligns = λ w size. refl;
  reserves = λ w size le. omega (arith, le);
  enough = λ w. refl;
}

abbrev pub process : Process (machine true)
process = record { word = λ a. 0; world = nothing_open }

abbrev Started : Type 0
Started = Session (machine true) debug machine-IsServing

engine_initialize_cases_example :
    (1 < 32
      → (s : Started) × (engine_initialize
            (machine true)
            debug
            machine-IsServing
            4096
            200
            zero_contexts
            process
          ≡ ran s)
        × IsRunning (machine true) debug machine-IsServing 4096 1 s)
    × (32 ≤ 1
        → engine_initialize (machine true) debug machine-IsServing 4096 200 zero_contexts process
          ≡ undefined)
unfolding project_delta.Win32.Start.allocate_buffer cores
engine_initialize_cases_example =
    engine_initialize_cases (machine true) debug machine-IsServing 4096 200 zero_contexts 1
      (omega arith) machine-IsAble process (two_cores 0 ∷ two_cores 48 ∷ []) refl refl
      both_cores-IsLaid refl refl

abbrev memory : Store
memory = record { word = λ a. 0; calls = [] }

abbrev jobs : List Job
jobs =
    record { task = 4; payload = 8 }
    ∷ record { task = 5; payload = 16 }
    ∷ record { task = 6; payload = 24 }
    ∷ []

abbrev scratch : ThreadArena
scratch = record { backing_memory = 2 ^ 40; capacity = 4096; offset = 0; max_capacity = 2 ^ 30 }

initialized_runs_batch_example :
    (s : Session (machine true) release machine-IsServing) × (s' : State) × (called : List Job)
    × (engine_initialize (machine true) release machine-IsServing 4096 200 zero_contexts process
        ≡ ran s)
    × (run_batch
          (λ j a. a)
          release
          12
          jobs
          (loaded (machine true) release machine-IsServing 4096 1 s memory)
        ≡ returns (some s'))
    × (s'.store.calls ≡ called)
    × Perm called jobs
    × (s'.globals.contexts.main_context.dep_counter.count ≡ 3)
unfolding project_delta.Win32.Start.allocate_buffer cores
initialized_runs_batch_example =
    initialized_runs_batch (machine true) release machine-IsServing 4096 1 200 zero_contexts
      machine-IsAble process (two_cores 0 ∷ two_cores 48 ∷ []) memory (λ j a. a) jobs refl refl
      both_cores-IsLaid refl refl (omega arith) (omega arith) (omega arith)
      (λ x m. (refl, Mem-HaveTasks jobs (refl, (refl, (refl, tt))) x m))

abbrev storage : ThreadArena
storage = record scratch { backing_memory = 2 ^ 41 }

lifetime-IsStopped_example :
    (s : Started) × (ps : List ℕ) × (s' : Started) × (address : ℕ) × (engine_initialize
        (machine true)
        debug
        machine-IsServing
        4096
        200
        zero_contexts
        process
      ≡ ran s)
    × (run_frames (machine true) debug machine-IsServing (3 ∷ 2 ^ 20 ∷ 0 ∷ []) s ≡ ran (ps, s'))
    × (s'.workers.globals.master_slab_start ≡ s.workers.globals.master_slab_start)
    × IsStopped (machine true) debug machine-IsServing 1 address s'
unfolding project_delta.Win32.Start.allocate_buffer cores
lifetime-IsStopped_example =
    lifetime-IsStopped (machine true) debug machine-IsServing 4096 1 200 zero_contexts
      machine-IsAble process (two_cores 0 ∷ two_cores 48 ∷ []) (3 ∷ 2 ^ 20 ∷ 0 ∷ []) refl refl
      both_cores-IsLaid refl refl (omega arith) (omega arith, (omega arith, (omega arith, tt)))

-- In the middle of a run, before a frame.
abbrev running : Started
running = record {
  is_running = true;
  config = memory_config_shutdown;
  workers = record {
    process = process;
    globals = record {
      master_slab_start = 2 ^ 40;
      master_slab_end = 2 ^ 40 + 4096 + 2 ^ 36;
      thread_count = 2;
      worker_count = 1;
      thread_contexts = 2 ^ 40;
      current = some 0;
      contexts = record zero_contexts {
        main_context = record zero_contexts.main_context {
          persistent_storage = storage;
          generic = record zero_contexts.main_context.generic { transient_arena = scratch };
        };
      };
    };
    s_worker_count = 1;
    s_threads = 0;
  };
}

scratch-HasRoom : HasRoom scratch 512
scratch-HasRoom = record {
  somewhere = omega arith;
  base = refl;
  at_word = refl;
  room = omega arith;
  zone = omega arith;
  small = omega arith;
}

storage-HasRoom : HasRoom storage 512
storage-HasRoom = record {
  somewhere = omega arith;
  base = refl;
  at_word = refl;
  room = omega arith;
  zone = omega arith;
  small = omega arith;
}

running-HasArenas : HasArenas 512 512 running.workers.globals
running-HasArenas = record {
  on = refl;
  type_is = refl;
  index_is = refl;
  storage = storage-HasRoom;
  scratch_room = scratch-HasRoom;
  apart = omega arith;
}

run_frames-AllAt_example :
    (ps : List ℕ) × (s' : Started) × (run_frames
        (machine true)
        debug
        machine-IsServing
        (3 ∷ 512 ∷ 7 ∷ [])
        running
      ≡ ran (ps, s'))
    × AllAt (2 ^ 40) ps
    × (length ps ≡ 3)
    × (scratch_of s'.workers.globals ≡ scratch)
    × HasArenas 512 512 s'.workers.globals
run_frames-AllAt_example =
    run_frames-AllAt (machine true) debug machine-IsServing (3 ∷ 512 ∷ 7 ∷ []) 512 512 running
      (omega arith, (omega arith, (omega arith, tt))) running-HasArenas refl
