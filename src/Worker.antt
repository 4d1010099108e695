-- ===== src/Worker.antt =====
-- src/thread_pool.cpp: `WorkerLoop` and `WorkerCounterHelper`, as steps of the workers. What a worker
-- finds in the queue is an argument of its step. The count of a new worker comes before its first step.
pub mod Sums
pub mod Changed
pub mod Tally
pub mod Leaving
mod Tests
use cpp_mpmc_thread_pool.Base.{
  ℕ, zero, suc, ◌+◌, Bool, true, false, Option, none, some, List, [], ◌∷◌, ◌++◌, get_elem?, set,
  max, if◌then◌else◌,
}
use cpp_mpmc_thread_pool.Base.Words.{add_size, sub_size}
use cpp_mpmc_thread_pool.Pool.{PoolState, running, paused, force_stopping}

-- Before the test of the state, in the wait on `pause_cv_`, in `WaitPop`, between `TaskOn` and
-- `TaskOff`, and behind the loop.
pub data Stage : Type 0 where
  looking pausing popping executing gone : Stage

-- The slot of a worker, with its `normal_end_`.
pub record Worker : Type 0 where
  pub stage : Stage
  pub idle : Bool
  pub idle_nums : ℕ
  pub should_exit : Bool
  pub normal_end : Bool

pub record Crew : Type 0 where
  pub state : PoolState
  pub workers : List Worker
  pub current_threads : ℕ
  pub active_threads : ℕ
  pub active_tasks : ℕ
  pub peak_threads : ℕ
  pub total_threads_created : ℕ
  pub total_threads_destroyed : ℕ
  pub paused_wait_cnt : ℕ

-- What `WaitPop` gives: `false` with the flag of the queue, no task object, an exit task for this
-- worker, one for another worker, which goes back into the queue or does not, or a task.
pub data Popped : Type 0 where
  missed : (closed : Bool) → Popped
  null_task : Popped
  own_exit : Popped
  other_exit : (requeued : Bool) → Popped
  real_task : Popped

abbrev pub new_worker : Worker
new_worker = record {
  stage = looking;
  idle = true;
  idle_nums = 0;
  should_exit = false;
  normal_end = false;
}

abbrev pub create_thread : Crew → Crew
create_thread c = record c {
  workers = c.workers ++ new_worker ∷ [];
  current_threads = add_size c.current_threads 1;
  total_threads_created = add_size c.total_threads_created 1;
  peak_threads = max c.peak_threads (add_size c.current_threads 1);
}

unfoldable pub task_on : Crew → Worker → Crew × Worker
task_on c w = (
  record c {
    active_threads = add_size c.active_threads 1;
    active_tasks = add_size c.active_tasks 1;
  },
  record w { stage = executing; idle = false; idle_nums = 0; normal_end = true },
)

unfoldable pub task_off : Crew → Worker → Crew × Worker
task_off c w =
    if w.normal_end
    then (
      record c {
        active_threads = sub_size c.active_threads 1;
        active_tasks = sub_size c.active_tasks 1;
      },
      record w { idle = true; idle_nums = add_size w.idle_nums 1; normal_end = false },
    )
    else (c, w)

-- The end of the loop, with the destructor of the helper.
unfoldable pub leave : Crew → Worker → Crew × Worker
unfolding task_off
leave c w =
    let (d, v) = task_off c w in
    (
      record d {
        current_threads = sub_size d.current_threads 1;
        total_threads_destroyed = add_size d.total_threads_destroyed 1;
      },
      record v { stage = gone },
    )

abbrev pub back : Worker → Worker
back w = record w { stage = looking }

-- The head of the loop, up to the call of `WaitPop`.
unfoldable pub look_around : Crew → Worker → PoolState → Crew × Worker
unfolding leave
look_around c w paused =
    (record c { paused_wait_cnt = add_size c.paused_wait_cnt 1 }, record w { stage = pausing })
look_around c w force_stopping = leave c w
look_around c w _ =
    (c, record w { stage = popping; idle = true; idle_nums = add_size w.idle_nums 1 })

unfoldable pub wake_up : Crew → Worker → PoolState → Crew × Worker
wake_up c w paused = (c, w)
wake_up c w _ = (c, back w)

unfoldable pub handle : Crew → Worker → Popped → Crew × Worker
unfolding leave task_on
handle c w (missed true) = leave c w
handle c w (missed false) = (c, back w)
handle c w null_task = (c, back w)
handle c w own_exit = leave c (record w { should_exit = false })
handle c w (other_exit true) = (c, back w)
handle c w (other_exit false) = leave c w
handle c w real_task = task_on c w

-- A step of the worker, which is at `stage`. Whether the task threw makes no difference here.
unfoldable pub act : Crew → Worker → Stage → Popped → Crew × Worker
unfolding look_around wake_up handle task_off
act c w looking p = look_around c w c.state
act c w pausing p = wake_up c w c.state
act c w popping p = handle c w p
act c w executing p = let (d, v) = task_off c w in (d, back v)
act c w gone p = (c, w)

-- A new worker, a step of the `k`th worker, or a change of the state by another thread.
pub data Event : Type 0 where
  create_event : Event
  worker_event : (k : ℕ) → Popped → Event
  state_event : PoolState → Event

abbrev pub put_worker : ℕ → Crew × Worker → Crew
put_worker k (c, w) = record c { workers = set c.workers k w }

unfoldable pub step : Crew → Event → Crew
unfolding act
step c create_event = create_thread c
step c (worker_event k p) = elim (get_elem? c.workers k) [
  | none ↦ c
  | some w ↦ put_worker k (act c w w.stage p)
]
step c (state_event s) = record c { state = s }

unfoldable pub steps : Crew → List Event → Crew
unfolding step
steps c [] = c
steps c (e ∷ es) = steps (step c e) es

-- `Start` before it creates workers.
abbrev pub no_crew : Crew
no_crew = record {
  state = running;
  workers = [];
  current_threads = 0;
  active_threads = 0;
  active_tasks = 0;
  peak_threads = 0;
  total_threads_created = 0;
  total_threads_destroyed = 0;
  paused_wait_cnt = 0;
}
