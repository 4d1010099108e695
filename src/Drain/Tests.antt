-- ===== src/Drain/Tests.antt =====
-- Runs of src/thread_pool.cpp's drain, at which the theorems apply.
use cpp_mpmc_thread_pool.Base.{◌≡◌, refl, arith, List, [], ◌∷◌, ◌++◌}
use cpp_mpmc_thread_pool.Drain.{
  out, took, Drain, Event, stop_event, worker_event, away, asleep, through, step, steps, advance,
  pop_task, notify_drained, drained_yet,
}
use cpp_mpmc_thread_pool.Drain.Tidy.{Tidy, flies}
use cpp_mpmc_thread_pool.Base.Totals.{total}
use cpp_mpmc_thread_pool.Drain.Woken.{Settled, drain_woken}
use cpp_mpmc_thread_pool.Drain.Missed.{fresh, overtaken, outs, Later, stop_missed}

-- One task in the ring, one taken.
abbrev two_left : Drain
two_left = record {
  tasks = 1;
  uncounted = 0;
  pending_count = 2;
  active_tasks = 0;
  workers = out ∷ took ∷ [];
  stopper = away;
}

two_left-Tidy : Tidy two_left
two_left-Tidy = record {
  counted = refl;
  pending = refl;
  active = refl;
  waited = λ s. absurd (cc);
  small = omega arith;
}

-- `Stop` goes to sleep before the workers run the tasks.
abbrev drained : List Event
drained =
    stop_event
    ∷ stop_event
    ∷ worker_event 0
    ∷ worker_event 0
    ∷ worker_event 0
    ∷ worker_event 1
    ∷ worker_event 1
    ∷ worker_event 0
    ∷ worker_event 0
    ∷ worker_event 1
    ∷ worker_event 1
    ∷ worker_event 1
    ∷ worker_event 1
    ∷ worker_event 0
    ∷ []

drained-Settled : Settled drained
unfolding Settled
drained-Settled = tt

drained_none : (steps two_left drained).tasks ≡ 0
unfolding steps step advance pop_task notify_drained drained_yet
drained_none = refl

drained_out : total flies (steps two_left drained).workers ≡ 0
unfolding steps step advance pop_task notify_drained drained_yet
drained_out = refl

drain_woken_example :
    (steps (steps two_left drained) (stop_event ∷ stop_event ∷ stop_event ∷ [])).stopper ≡ through
drain_woken_example =
    drain_woken two_left drained two_left-Tidy drained-Settled drained_none drained_out

abbrev hopeless : List Event
hopeless = stop_event ∷ worker_event 1 ∷ worker_event 0 ∷ stop_event ∷ []

hopeless-Later : Later hopeless
unfolding Later
hopeless-Later = tt

stop_missed_example :
    let d = steps (fresh 2) (overtaken ++ hopeless) in
    (d.tasks ≡ 0)
    × (d.pending_count ≡ 0)
    × (d.active_tasks ≡ 0)
    × (d.workers ≡ outs 2)
    × (d.stopper ≡ asleep)
stop_missed_example = stop_missed 1 hopeless hopeless-Later
