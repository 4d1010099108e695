-- ===== src/Worker/Tests.antt =====
-- Two workers: one runs a task and is told to exit, one waits.
use cpp_mpmc_thread_pool.Base.{◌≡◌, ◌≢◌, refl, true, false, some, List, [], ◌∷◌, get_elem?}
use cpp_mpmc_thread_pool.Pool.{paused, shutting_down}
use cpp_mpmc_thread_pool.Worker.{
  Worker, Crew, gone, executing, null_task, own_exit, other_exit, real_task, Event, create_event,
  worker_event, state_event, no_crew, steps,
}
use cpp_mpmc_thread_pool.Worker.Leaving.{finding_closed, worker_leaves}

abbrev shift : List Event
shift =
    create_event
    ∷ create_event
    ∷ worker_event 0 null_task
    ∷ worker_event 1 null_task
    ∷ worker_event 0 real_task
    ∷ worker_event 1 (other_exit true)
    ∷ worker_event 0 null_task
    ∷ worker_event 0 null_task
    ∷ worker_event 0 own_exit
    ∷ worker_event 1 null_task
    ∷ worker_event 1 real_task
    ∷ state_event shutting_down
    ∷ []

abbrev after : Crew
unfolding steps
after = steps no_crew shift

one_left : after.current_threads ≡ 1
unfolding steps
one_left = refl

one_active : after.active_threads ≡ 1
unfolding steps
one_active = refl

abbrev second : Worker
second = record {
  stage = executing;
  idle = false;
  idle_nums = 0;
  should_exit = false;
  normal_end = true;
}

second_there : get_elem? after.workers 1 ≡ some second
unfolding steps
second_there = refl

not_paused : after.state ≢ paused
unfolding steps
not_paused e = cc

worker_leaves_example :
    (v : Worker) × (get_elem? (steps after (finding_closed 1 3)).workers 1 ≡ some v)
    × (v.stage ≡ gone)
worker_leaves_example = worker_leaves after 1 second second_there not_paused
