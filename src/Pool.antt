-- ===== src/Pool.antt =====
-- src/thread_pool.cpp and include/thread_pool/thread_pool.hpp: the state of a pool for posting, running
-- and stopping, with the places where its threads can be, and the transitions of `PoolState`.
pub mod Calls
pub mod Schedule
pub mod Count
pub mod Posting
pub mod Working
pub mod Steps
pub mod Statistics
pub mod Names
pub mod Access
pub mod Lifecycle
mod Tests
use mathlib.Core.List.{map}
use cpp_mpmc_thread_pool.Base.{
  ℕ, zero, suc, ◌+◌, ◌-◌, Bool, true, false, ◌&&◌, Option, none, some, List, [], ◌∷◌, ◌++◌, ◌==◌,
  if◌then◌else◌, length,
}
use cpp_mpmc_thread_pool.Base.Words.{add_size, sub_size}
use cpp_mpmc_thread_pool.Adapter
use cpp_mpmc_thread_pool.Adapter.{Adapter}
use cpp_mpmc_thread_pool.Adapter.Wait.{
  attempt_push, refused, stored, no_room, attempt_pop, taken, shut, no_item,
}
use cpp_mpmc_thread_pool.Task.{Outcome, SimpleTask, execute_simple}

pub data PoolState : Type 0 where
  created running paused shutting_down force_stopping stopped : PoolState

pub data QueueFullPolicy : Type 0 where
  block discard overwrite : QueueFullPolicy

pub data StopMode : Type 0 where
  graceful force : StopMode

-- What travels in the queue: a task of `Post`, or an `ExitTask` of the load balancer for the worker of
-- a slot.
pub data Item : Type 0 where
  posted : SimpleTask → Item
  exit_task : (slot : ℕ) → Item

-- What a call of `Post` or `PostBatch` has still to do when the queue has answered: to count `n`
-- tasks as submitted, to count its task as rejected or first as discarded, to count the task that it
-- has overwritten as cancelled, or to count the overwriting. The Boolean says whether its push
-- succeeded.
pub data Rest : Type 0 where
  counts : (n : ℕ) → Rest
  rejects discards : Rest
  displaced overwriting : (success : Bool) → Rest

-- `checking`, `pausing`, `dispatching` and `pushing` are the tasks of the threads inside `Post`:
-- before the test of the state, in the wait on `pause_cv_`, before the switch on the policy, and in
-- the loop of `WaitPush`; `returning` are the threads behind the queue's answer. `exiting` are the
-- exit tasks in calls of `WaitPush`, from the load balancer or from a worker that passes one on.
-- `popped` is what workers have out of the queue and have not looked at, `starting` the tasks behind
-- `TaskOn`, `ran` the tasks behind `Execute`, and `ending` counts the workers between
-- `RecordTaskComplete` and `TaskOff`. `stopping` counts the calls of `Stop` before they load the
-- state again, `phases` has what they loaded, and `joining` counts those at the end of their phase.
-- `turned_away` counts the tasks that `PostBatch` did not push, `exits_sent` the exit tasks that were
-- made, and `exits_gone` those that their worker got or a closed queue refused.
pub record Pool : Type 0 where
  pub state : PoolState
  pub queue : Adapter Item
  pub policy : QueueFullPolicy
  pub checking : List SimpleTask
  pub pausing : List SimpleTask
  pub dispatching : List SimpleTask
  pub pushing : List SimpleTask
  pub returning : List Rest
  pub exiting : List ℕ
  pub popped : List Item
  pub starting : List SimpleTask
  pub ran : List SimpleTask
  pub ending : ℕ
  pub stopping : ℕ
  pub phases : List PoolState
  pub joining : ℕ
  pub turned_away : ℕ
  pub exits_sent : ℕ
  pub exits_gone : ℕ
  pub active_tasks : ℕ
  pub total_submitted : ℕ
  pub total_completed : ℕ
  pub total_failed : ℕ
  pub total_cancelled : ℕ
  pub total_rejected : ℕ
  pub total_exec_time_ns : ℕ
  pub discard_cnt : ℕ
  pub overwrite_cnt : ℕ
  pub paused_wait_cnt : ℕ

-- The member initialisers, and the constructors' part that the steps below depend on.
abbrev pub make : ℕ → QueueFullPolicy → Pool
make queue_cap policy = record {
  state = created;
  queue = Adapter.make queue_cap;
  policy = policy;
  checking = [];
  pausing = [];
  dispatching = [];
  pushing = [];
  returning = [];
  exiting = [];
  popped = [];
  starting = [];
  ran = [];
  ending = 0;
  stopping = 0;
  phases = [];
  joining = 0;
  turned_away = 0;
  exits_sent = 0;
  exits_gone = 0;
  active_tasks = 0;
  total_submitted = 0;
  total_completed = 0;
  total_failed = 0;
  total_cancelled = 0;
  total_rejected = 0;
  total_exec_time_ns = 0;
  discard_cnt = 0;
  overwrite_cnt = 0;
  paused_wait_cnt = 0;
}

-- The `k`th thread of a list leaves it.
unfoldable pub pick {ℓ} : {A : Type ℓ} → ℕ → List A → Option (A × List A)
pick k [] = none
pick zero (x ∷ xs) = some (x, xs)
pick (suc k) (x ∷ xs) = elim (pick k xs) [ none ↦ none | some (y, ys) ↦ some (y, x ∷ ys) ]

abbrev pub record_task_cancel : Pool → Pool
record_task_cancel p = record p { total_cancelled = add_size p.total_cancelled 1 }

abbrev pub record_task_rejected : Pool → Pool
record_task_rejected p = record p { total_rejected = add_size p.total_rejected 1 }

abbrev pub record_task_complete : Pool → SimpleTask → ℕ → Pool
record_task_complete p t ns =
    if t.ok
    then record p {
      total_completed = add_size p.total_completed 1;
      total_exec_time_ns = add_size p.total_exec_time_ns ns;
    }
    else record p {
      total_failed = add_size p.total_failed 1;
      total_exec_time_ns = add_size p.total_exec_time_ns ns;
    }

-- The three transitions by `compare_exchange_strong` from one state.
unfoldable pub start : PoolState → PoolState
start created = running
start s = s

unfoldable pub pause : PoolState → PoolState
pause running = paused
pause s = s

unfoldable pub resume : PoolState → PoolState
resume paused = running
resume s = s

-- The target that the loop of `Stop` computes.
unfoldable pub stop_target : StopMode → PoolState → PoolState
stop_target mode created = stopped
stop_target graceful running = shutting_down
stop_target graceful paused = shutting_down
stop_target force running = force_stopping
stop_target force paused = force_stopping
stop_target force shutting_down = force_stopping
stop_target graceful shutting_down = shutting_down
stop_target mode force_stopping = force_stopping
stop_target mode stopped = stopped
