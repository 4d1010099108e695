-- ===== src/Task.antt =====
-- include/thread_pool/fwd.hpp: the tasks that the queue carries.
pub mod Settle
mod Tests
use Prim.Native.String.{String}
use cpp_mpmc_thread_pool.Base.{
  ℕ, suc, ◌+◌, Bool, true, false, Option, none, some, List, [], ◌∷◌, if◌then◌else◌,
}

-- A `std::runtime_error` with its message, the `std::future_error` of a promise that is already
-- satisfied, and what the code of a task throws.
pub data Exception : Type 0 where
  runtime_error : String → Exception
  future_error : Exception
  task_error : ℕ → Exception

-- How a call of `f_` ends, and what a promise holds.
pub data Outcome {ℓ} (T : Type ℓ) : Type ℓ where
  value : T → Outcome T
  exception : Exception → Outcome T

-- `FutureTask<T>`, and its specialisation for `void`. `runs` counts the calls of `f_`.
pub record FutureTask {ℓ} (T : Type ℓ) : Type ℓ where
  pub promise : Option (Outcome T)
  pub ok : Bool
  pub fut_taken : Bool
  pub done : Bool
  pub runs : ℕ

-- `SimpleTask`.
pub record SimpleTask : Type 0 where
  pub ok : Bool
  pub done : Bool
  pub runs : ℕ

abbrev pub new_simple : SimpleTask
new_simple = record { ok = false; done = false; runs = 0 }

-- `if (!eptr)` puts an exception of the task's own.
abbrev pub cancel_reason : Option Exception → Exception
cancel_reason none = runtime_error "task cancelled"
cancel_reason (some e) = e

module _ {ℓ} {T : Type ℓ} where
  abbrev pub new_future : FutureTask T
  new_future = record { promise = none; ok = false; fut_taken = false; done = false; runs = 0 }

  -- `set_value` and `set_exception` of the library's `std::promise`: the result is kept, or the promise
  -- was satisfied before and the call throws (`false`).
  abbrev pub settle : Option (Outcome T) → Outcome T → Option (Outcome T) × Bool
  settle none r = (some r, true)
  settle (some old) r = (some old, false)

  -- `GetFuture`: the future, or the exception for a second call.
  unfoldable pub get_future : FutureTask T → Outcome (Unit {0}) × FutureTask T
  get_future t =
      if t.fut_taken
      then (exception (runtime_error "Future already taken"), t)
      else (value tt, record t { fut_taken = true })

  -- The body of `Execute` behind its test of `done_`, where `f_` ends with the given outcome. If
  -- `set_value` throws, the handler's `set_exception` throws as well, and that is caught.
  unfoldable pub run_body : FutureTask T → Outcome T → FutureTask T
  run_body t (value x) =
      let (p, fresh) = settle t.promise (value x) in
      record t { promise = p; ok = fresh; done = true; runs = suc t.runs }
  run_body t (exception e) = record t {
    promise = (settle t.promise (exception e)).0;
    ok = false;
    done = true;
    runs = suc t.runs;
  }

  unfoldable pub execute : FutureTask T → Outcome T → FutureTask T
  unfolding run_body
  execute t r = if t.done then t else run_body t r

  unfoldable pub success : FutureTask T → Bool
  success t = t.ok

  unfoldable pub cancel : FutureTask T → Option Exception → FutureTask T
  cancel t eptr = if t.done then t else record t {
    promise = (settle t.promise (exception (cancel_reason eptr))).0;
    ok = false;
    done = true;
  }

unfoldable pub run_simple_body : SimpleTask → Outcome (Unit {0}) → SimpleTask
run_simple_body t (value x) = record t { ok = true; done = true; runs = suc t.runs }
run_simple_body t (exception e) = record t { ok = false; done = true; runs = suc t.runs }

unfoldable pub execute_simple : SimpleTask → Outcome (Unit {0}) → SimpleTask
unfolding run_simple_body
execute_simple t r = if t.done then t else run_simple_body t r

unfoldable pub cancel_simple : SimpleTask → SimpleTask
cancel_simple t = if t.done then t else record t { ok = false; done = true }

-- `TaskPtr`: the classes that derive from `TaskBase`. `number` says which submission it was; an exit
-- task names the slot of the worker that is to leave.
pub data Task : Type 0 where
  simple : (number : ℕ) → SimpleTask → Task
  future : (number : ℕ) → FutureTask ℕ → Task
  exit : (slot : ℕ) → Task

-- The virtual functions. `ExitTask` does nothing, and succeeds as `TaskBase::Success` says.
unfoldable pub task_execute : Task → Outcome ℕ → Task
unfolding execute execute_simple
task_execute (simple n t) (value x) = simple n (execute_simple t (value tt))
task_execute (simple n t) (exception e) = simple n (execute_simple t (exception e))
task_execute (future n t) r = future n (execute t r)
task_execute (exit slot) r = exit slot

unfoldable pub task_success : Task → Bool
task_success (simple n t) = t.ok
task_success (future n t) = t.ok
task_success (exit slot) = true

unfoldable pub task_cancel : Task → Option Exception → Task
unfolding cancel cancel_simple
task_cancel (simple n t) eptr = simple n (cancel_simple t)
task_cancel (future n t) eptr = future n (cancel t eptr)
task_cancel (exit slot) eptr = exit slot
