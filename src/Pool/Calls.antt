-- ===== src/Pool/Calls.antt =====
-- The pieces of `Post`, `PostBatch`, `Stop`, `EnqueueExitSignals` and `WorkerLoop` in
-- src/thread_pool.cpp and of `PostBatch` in include/thread_pool/thread_pool.hpp, each up to the next
-- place where another thread can come between. `none` is a fault of the queue.
use mathlib.Core.List.{map}
use cpp_mpmc_thread_pool.Base.{
  ℕ, zero, suc, ◌+◌, ◌-◌, Bool, true, false, ◌&&◌, Option, none, some, List, ◌∷◌, ◌==◌,
  if◌then◌else◌, length,
}
use cpp_mpmc_thread_pool.Base.Words.{add_size, sub_size}
use cpp_mpmc_thread_pool.Adapter
use cpp_mpmc_thread_pool.Adapter.{Adapter}
use cpp_mpmc_thread_pool.Adapter.Wait.{
  attempt_push, refused, stored, no_room, attempt_pop, taken, shut, no_item,
}
use cpp_mpmc_thread_pool.Task.{Outcome, SimpleTask, execute_simple}
use cpp_mpmc_thread_pool.Pool.{
  PoolState, running, paused, shutting_down, force_stopping, stopped, QueueFullPolicy, block,
  discard, overwrite, Item, posted, exit_task, Rest, counts, rejects, discards, displaced,
  overwriting, Pool, record_task_cancel, record_task_rejected, record_task_complete,
}

-- `Post` with the task `t` taken out of `checking`: one round of its loop.
unfoldable pub check_state : Pool → SimpleTask → PoolState → Pool
check_state p t running = record p { dispatching = t ∷ p.dispatching }
check_state p t paused = record p {
  pausing = t ∷ p.pausing;
  paused_wait_cnt = add_size p.paused_wait_cnt 1;
}
check_state p t _ = record_task_rejected p

-- A look at the queue by `WaitPush` in `Post`.
unfoldable pub wait_push_look : Pool → SimpleTask → Option Pool
unfolding attempt_push
wait_push_look p t = elim (attempt_push p.queue (posted t)) [
  | none ↦ none
  | some (refused, q) ↦ some (record p { queue = q; returning = rejects ∷ p.returning })
  | some (stored, q) ↦ some (record p { queue = q; returning = counts 1 ∷ p.returning })
  | some (no_room, q) ↦ some (record p { queue = q; pushing = t ∷ p.pushing })
]

-- What follows the push of the policies that do not wait.
abbrev pub after_push : Bool → Rest
after_push true = counts 1
after_push false = discards

unfoldable pub post_discard : Pool → SimpleTask → Option Pool
unfolding Adapter.try_push
post_discard p t = elim (Adapter.try_push p.queue (posted t)) [
  | none ↦ none
  | some (success, q) ↦ some (record p { queue = q; returning = after_push success ∷ p.returning })
]

-- `if (overwritten)`.
abbrev pub after_overwrite : Bool → Option Item → Rest
after_overwrite success none = after_push success
after_overwrite success (some old) = displaced success

unfoldable pub post_overwrite : Pool → SimpleTask → Option Pool
unfolding Adapter.overwrite_push
post_overwrite p t = elim (Adapter.overwrite_push p.queue (posted t)) [
  | none ↦ none
  | some (success, old, q) ↦
      some (record p { queue = q; returning = after_overwrite success old ∷ p.returning })
]

-- The switch on the policy.
unfoldable pub dispatch : Pool → SimpleTask → QueueFullPolicy → Option Pool
unfolding wait_push_look post_discard post_overwrite
dispatch p t block = wait_push_look p t
dispatch p t discard = post_discard p t
dispatch p t overwrite = post_overwrite p t

-- A call of `Post` or `PostBatch` goes on by one change of a counter, its rest taken out of `returning`.
unfoldable pub return_step : Pool → Rest → Pool
return_step p (counts n) = record p { total_submitted = add_size p.total_submitted n }
return_step p rejects = record_task_rejected p
return_step p discards = record p {
  discard_cnt = add_size p.discard_cnt 1;
  returning = rejects ∷ p.returning;
}
return_step p (displaced success) =
    record_task_cancel (record p { returning = overwriting success ∷ p.returning })
return_step p (overwriting success) = record p {
  overwrite_cnt = add_size p.overwrite_cnt 1;
  returning = after_push success ∷ p.returning;
}

unfoldable pub post_batch_running : Pool → List SimpleTask → Option Pool
unfolding Adapter.try_push_batch
post_batch_running p ts = elim (Adapter.try_push_batch p.queue (map posted ts)) [
  | none ↦ none
  | some (count, q) ↦ some (record p {
    queue = q;
    returning = counts count ∷ p.returning;
    turned_away = p.turned_away + (length ts - count);
  })
]

-- `PostBatch`, both overloads.
unfoldable pub post_batch : Pool → List SimpleTask → PoolState → Option Pool
unfolding post_batch_running
post_batch p ts running = post_batch_running p ts
post_batch p ts _ = some (record p { turned_away = p.turned_away + length ts })

-- A look at the queue by `WaitPush` in `EnqueueExitSignals` or in a worker that passes the exit task on.
unfoldable pub exit_push_look : Pool → ℕ → Option Pool
unfolding attempt_push
exit_push_look p slot = elim (attempt_push p.queue (exit_task slot)) [
  | none ↦ none
  | some (refused, q) ↦ some (record p { queue = q; exits_gone = suc p.exits_gone })
  | some (stored, q) ↦ some (record p { queue = q })
  | some (no_room, q) ↦ some (record p { queue = q; exiting = slot ∷ p.exiting })
]

-- A worker looks at the queue in `WaitPop`.
unfoldable pub take_task : Pool → Option Pool
unfolding attempt_pop
take_task p = elim (attempt_pop p.queue) [
  | none ↦ none
  | some (taken x, q) ↦ some (record p { queue = q; popped = x ∷ p.popped })
  | some (shut, q) ↦ some (record p { queue = q })
  | some (no_item, q) ↦ some (record p { queue = q })
]

-- The `dynamic_cast` and what follows it: a worker leaves by its own exit task and passes that of
-- another one on; with a task it calls `TaskOn`.
unfoldable pub look_at : Pool → Item → Bool → Pool
look_at p (posted t) own = record p {
  starting = t ∷ p.starting;
  active_tasks = add_size p.active_tasks 1;
}
look_at p (exit_task slot) true = record p { exits_gone = suc p.exits_gone }
look_at p (exit_task slot) false = record p { exiting = slot ∷ p.exiting }

unfoldable pub run_task : Pool → SimpleTask → Outcome (Unit {0}) → Pool
unfolding execute_simple
run_task p t r = record p { ran = execute_simple t r ∷ p.ran }

-- `RecordTaskComplete` in the hook of the scope.
unfoldable pub record_task : Pool → SimpleTask → ℕ → Pool
record_task p t ns = record_task_complete (record p { ending = suc p.ending }) t ns

-- `TaskOff`.
unfoldable pub finish_task : Pool → ℕ → Pool
finish_task p zero = p
finish_task p (suc m) = record p { ending = m; active_tasks = sub_size p.active_tasks 1 }

-- `Clear` with the visitor that cancels what is queued and counts it.
unfoldable pub cancel_task : Item → ℕ → ℕ
cancel_task x n = add_size n 1

-- `Stop` loads the state behind its loop, and returns if it is `STOPPED`.
unfoldable pub load_phase : Pool → ℕ → PoolState → Pool
load_phase p zero s = p
load_phase p (suc m) stopped = record p { stopping = m }
load_phase p (suc m) s = record p { stopping = m; phases = s ∷ p.phases }

-- The branches of `Stop` on the state that it loaded; `others` are the other calls at this place. The
-- graceful one goes on once `Pending` and `ActiveTasks` give 0.
unfoldable pub stop_phase : Pool → List PoolState → PoolState → ℕ → ℕ → Option Pool
unfolding cancel_task Adapter.close_queue Adapter.clear
stop_phase p others shutting_down pending active =
    if (pending == 0) && (active == 0)
    then some
        (record p { queue = Adapter.close_queue p.queue; phases = others; joining = suc p.joining })
    else some p
stop_phase p others force_stopping pending active =
    elim (Adapter.clear p.queue cancel_task p.total_cancelled) [
      | none ↦ none
      | some (n, q) ↦ some (record p {
        queue = Adapter.close_queue q;
        total_cancelled = n;
        phases = others;
        joining = suc p.joining;
      })
    ]
stop_phase p others s pending active = some (record p { phases = others; joining = suc p.joining })

-- The end of `Stop`: a call that is there stores `STOPPED`.
unfoldable pub mark_stopped : Pool → ℕ → Pool
mark_stopped p zero = p
mark_stopped p (suc m) = record p { state = stopped; joining = m }
