-- ===== src/TaskQueue/Init.antt =====
-- InitializeQueue (Engine/src/delta/core/ThreadContext.cpp) with the sizes that the engine passes.
use project_delta.Prelude.{ℕ, ◌+◌, ◌^◌, ◌≤◌, ◌<◌, ◌≡◌, refl, arith}
use project_delta.Prelude.Int.{pos, ◌-ℤ◌}
use project_delta.Build.{Build, returns}
use project_delta.Pal.{Pal}
use project_delta.EngineTypes.{ThreadPageCoordinator, Job, TaskQueue}
use project_delta.MemoryMap.Worker
use project_delta.TaskQueue.{
  Store, task_cell, payload_cell, put_job, get_job, initialize_queue, QueueInit,
}
use project_delta.TaskQueue.Cells.{IsClear, task_cell-eq, payload_cell-eq}
use project_delta.TaskQueue.Ends.{IsQueue}

module _ (pal : Pal) (build : Build) (page_coord : ThreadPageCoordinator) (old : TaskQueue)
    (dep_counter : ℕ) (w : pal.World) (r : QueueInit pal) where
  abbrev target : ℕ
  target = page_coord.virtual_address_base + Worker.virt_zone_queue_offset

  abbrev pub initialized : TaskQueue
  initialized = record old {
    top = pos 0;
    bottom = pos 0;
    size = pos 4096;
    mask = pos 4095;
    tasks = target;
    payloads = target + 4096;
  }

  pub initialize_queue-eq :
      target + 2 ^ 16 ≤ 2 ^ 64
      → initialize_queue pal build page_coord old dep_counter Worker.virt_zone_queue_offset
          Worker.virt_zone_queue_size w
        ≡ returns r
      → r.queue ≡ initialized
  unfolding initialize_queue ◌-ℤ◌
  initialize_queue-eq small h = ground arith

  pub initialized-IsQueue : target + 2 ^ 16 ≤ 2 ^ 64 → IsQueue initialized 12 0 0
  initialized-IsQueue small = record {
    ring = record {
      few = omega arith;
      size_is = refl;
      mask_is = refl;
      tasks_end = omega arith;
      payloads_end = omega arith;
    };
    top_is = refl;
    bottom_is = refl;
    small = omega arith;
  }

  -- InitializeQueue gives an empty ring of 4096 places, with the payloads 4096 bytes behind the tasks
  -- though these take 32768 bytes: the first 512 indices are clear of each other, and from then on
  -- the payload of index `i` lies in the cell of the task of index `i + 512`. The pointer to the
  -- dependency counter is left as it was.
  pub initialize_queue-overlaps :
      target + 2 ^ 16 ≤ 2 ^ 64
      → initialize_queue pal build page_coord old dep_counter Worker.virt_zone_queue_offset
          Worker.virt_zone_queue_size w
        ≡ returns r
      → IsQueue r.queue 12 0 0
        × IsClear r.queue.tasks r.queue.payloads 12 512
        × ((i : ℕ)
            → i + 512 < 4096
            → payload_cell r.queue (pos i) ≡ task_cell r.queue (pos (i + 512)))
        × (r.queue.dep_counter_ptr ≡ old.dep_counter_ptr)
  initialize_queue-overlaps small h =
      let v = initialized-IsQueue small in
      rw (initialize_queue-eq small h) (
        v,
        λ i j ih jh. omega arith,
        λ i ih. omega (
          arith,
          payload_cell-eq v.ring i (omega arith),
          task_cell-eq v.ring (i + 512) (omega arith),
        ),
        refl,
      )

  -- So a job put at index `i + 512` while job `i` waits replaces the payload of job `i` by its own
  -- task.
  pub put_job-clobbers :
      target + 2 ^ 16 ≤ 2 ^ 64
      → initialize_queue pal build page_coord old dep_counter Worker.virt_zone_queue_offset
          Worker.virt_zone_queue_size w
        ≡ returns r
      → (i : ℕ) (j : Job) (s : Store) → i + 512 < 4096
      → (get_job r.queue (pos i) (put_job r.queue (pos (i + 512)) j s)).payload ≡ j.task
  put_job-clobbers small h i j s few =
      let v = initialized-IsQueue small in
      rw (initialize_queue-eq small h) (
        ground (
          arith,
          payload_cell-eq v.ring i (omega arith),
          task_cell-eq v.ring (i + 512) (omega arith),
          payload_cell-eq v.ring (i + 512) (omega arith),
        ))
