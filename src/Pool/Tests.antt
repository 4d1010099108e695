-- ===== src/Pool/Tests.antt =====
-- A pool with room for two tasks.
use cpp_mpmc_thread_pool.Base.{
  ℕ, false, ◌+◌, ◌≤◌, ◌<◌, ◌^◌, ◌≡◌, refl, Option, none, some, List, [], ◌∷◌, arith, length,
}
use cpp_mpmc_thread_pool.Base.Words.{ptr_diff}
use cpp_mpmc_thread_pool.Ring
use cpp_mpmc_thread_pool.Adapter
use cpp_mpmc_thread_pool.Adapter.Spec.{View, Models}
use cpp_mpmc_thread_pool.Adapter.Wait.{attempt_pop, attempt_push}
use cpp_mpmc_thread_pool.Task.{value, new_simple, execute_simple}
use cpp_mpmc_thread_pool.Pool.{Item, Pool, overwrite, force, make}
use cpp_mpmc_thread_pool.Pool.Calls
use cpp_mpmc_thread_pool.Pool.Schedule.{
  Event, post_event, check_event, dispatch_event, return_event, exit_event, exit_push_event,
  take_event, look_event, run_event, record_event, finish_event, start_event, stop_event,
  load_event, phase_event, stopped_event, steps,
}
use cpp_mpmc_thread_pool.Pool.Schedule
use cpp_mpmc_thread_pool.Pool.Count.{
  Counted, inside, landed, replaced, in_hand, all_offers, all_exit_signals, rank,
}
use cpp_mpmc_thread_pool.Pool.Steps.{make-Counted, tasks_conserved, never_back}

abbrev small_pool : Pool
small_pool = make 2 overwrite

-- Two tasks are posted and the first one runs. The load balancer sends an exit task, and a third task
-- overwrites the second one. A worker passes the exit task on, and a forced stop cancels what is
-- queued, the exit task with it.
abbrev day : List Event
day =
    start_event
    ∷ post_event new_simple
    ∷ check_event 0
    ∷ dispatch_event 0
    ∷ return_event 0
    ∷ post_event new_simple
    ∷ check_event 0
    ∷ dispatch_event 0
    ∷ return_event 0
    ∷ take_event
    ∷ look_event 0 false
    ∷ run_event 0 (value tt)
    ∷ record_event 0 5
    ∷ finish_event
    ∷ exit_event 7
    ∷ exit_push_event 0
    ∷ post_event new_simple
    ∷ check_event 0
    ∷ dispatch_event 0
    ∷ return_event 0
    ∷ return_event 0
    ∷ return_event 0
    ∷ take_event
    ∷ look_event 0 false
    ∷ exit_push_event 0
    ∷ stop_event force
    ∷ load_event
    ∷ phase_event 0 2 0
    ∷ stopped_event
    ∷ []

day_fits : all_offers day + all_exit_signals day + small_pool.queue.queue.capacity < 2 ^ 63
unfolding Adapter.make Ring.make
day_fits = omega arith

tasks_conserved_example :
    (p : Pool) × (steps small_pool day ≡ some p)
    × (all_offers day ≡ p.total_submitted + p.total_rejected + p.turned_away + inside p)
    × ((v : View Item) × Models p.queue v
        × (p.total_submitted + landed p + p.exits_sent
            ≡ length v.items
              + in_hand p
              + p.total_completed
              + p.total_failed
              + p.total_cancelled
              + replaced p
              + p.exits_gone))
    × (p.active_tasks ≡ length p.starting + length p.ran + p.ending)
tasks_conserved_example = tasks_conserved 2 overwrite day (omega arith) day_fits

small_pool-Counted :
    Counted small_pool (rank small_pool.state) 0 0 0 small_pool.queue.queue.capacity
small_pool-Counted = make-Counted 2 overwrite (omega arith)

never_back_example :
    (q : Pool) × (steps small_pool day ≡ some q) × (rank small_pool.state ≤ rank q.state)
never_back_example = never_back day small_pool-Counted day_fits

totals : Option Pool → List ℕ
totals none = []
totals (some p) =
    rank p.state ∷ p.total_submitted ∷ p.total_completed ∷ p.total_cancelled ∷ p.overwrite_cnt ∷ []

-- Three tasks are counted as submitted, and four as completed or cancelled.
totals_of_day : totals (steps small_pool day) ≡ 4 ∷ 3 ∷ 1 ∷ 3 ∷ 1 ∷ []
unfolding totals steps Adapter.make Ring.make ptr_diff Ring.try_push Ring.try_pop
    Ring.try_pop_consume Adapter.overwrite_push Adapter.clear Adapter.drain Schedule.step
    Calls.dispatch Calls.post_overwrite Calls.return_step Calls.exit_push_look Calls.take_task
    Calls.look_at Calls.run_task Calls.record_task Calls.stop_phase attempt_pop attempt_push
    execute_simple
totals_of_day = refl
