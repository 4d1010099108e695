-- ===== src/Pool/Schedule.antt =====
-- The steps of all threads of a pool of src/thread_pool.cpp, and schedules of them.
use cpp_mpmc_thread_pool.Base.{ℕ, suc, Bool, Option, none, some, List, [], ◌∷◌}
use cpp_mpmc_thread_pool.Task.{Outcome, SimpleTask}
use cpp_mpmc_thread_pool.Pool.{
  PoolState, paused, QueueFullPolicy, StopMode, Pool, pick, start, pause, resume, stop_target,
}
use cpp_mpmc_thread_pool.Pool.Calls.{
  check_state, wait_push_look, dispatch, return_step, post_batch, exit_push_look, take_task,
  look_at, run_task, record_task, finish_task, load_phase, stop_phase, mark_stopped,
}

-- A step of some thread. A number picks the thread out of its list. `own` says whether an exit task is
-- for the worker that got it; `pending` and `active` are what the loads of `Stop` give.
pub data Event : Type 0 where
  post_event : SimpleTask → Event
  check_event dispatch_event push_event wake_event return_event : ℕ → Event
  batch_event : List SimpleTask → Event
  exit_event exit_push_event : ℕ → Event
  take_event : Event
  look_event : ℕ → (own : Bool) → Event
  run_event : ℕ → Outcome (Unit {0}) → Event
  record_event : ℕ → (ns : ℕ) → Event
  finish_event start_event pause_event resume_event : Event
  policy_event : QueueFullPolicy → Event
  stop_event : StopMode → Event
  load_event : Event
  phase_event : ℕ → (pending active : ℕ) → Event
  stopped_event : Event

unfoldable pub wake : Pool → SimpleTask → List SimpleTask → PoolState → Pool
wake p t rest paused = p
wake p t rest _ = record p { pausing = rest; checking = t ∷ p.checking }

unfoldable pub step : Pool → Event → Option Pool
unfolding pick check_state wake dispatch wait_push_look return_step post_batch exit_push_look
    take_task look_at run_task record_task finish_task start pause resume stop_target load_phase
    stop_phase mark_stopped
step p (post_event t) = some (record p { checking = t ∷ p.checking })
step p (check_event k) = elim (pick k p.checking) [
  | none ↦ some p
  | some (t, rest) ↦ some (check_state (record p { checking = rest }) t p.state)
]
step p (wake_event k) = elim (pick k p.pausing) [
  | none ↦ some p
  | some (t, rest) ↦ some (wake p t rest p.state)
]
step p (dispatch_event k) = elim (pick k p.dispatching) [
  | none ↦ some p
  | some (t, rest) ↦ dispatch (record p { dispatching = rest }) t p.policy
]
step p (push_event k) = elim (pick k p.pushing) [
  | none ↦ some p
  | some (t, rest) ↦ wait_push_look (record p { pushing = rest }) t
]
step p (return_event k) = elim (pick k p.returning) [
  | none ↦ some p
  | some (r, rest) ↦ some (return_step (record p { returning = rest }) r)
]
step p (batch_event ts) = post_batch p ts p.state
step p (exit_event slot) =
    some (record p { exiting = slot ∷ p.exiting; exits_sent = suc p.exits_sent })
step p (exit_push_event k) = elim (pick k p.exiting) [
  | none ↦ some p
  | some (slot, rest) ↦ exit_push_look (record p { exiting = rest }) slot
]
step p take_event = take_task p
step p (look_event k own) = elim (pick k p.popped) [
  | none ↦ some p
  | some (x, rest) ↦ some (look_at (record p { popped = rest }) x own)
]
step p (run_event k r) = elim (pick k p.starting) [
  | none ↦ some p
  | some (t, rest) ↦ some (run_task (record p { starting = rest }) t r)
]
step p (record_event k ns) = elim (pick k p.ran) [
  | none ↦ some p
  | some (t, rest) ↦ some (record_task (record p { ran = rest }) t ns)
]
step p finish_event = some (finish_task p p.ending)
step p start_event = some (record p { state = start p.state })
step p pause_event = some (record p { state = pause p.state })
step p resume_event = some (record p { state = resume p.state })
step p (policy_event policy) = some (record p { policy = policy })
step p (stop_event mode) =
    some (record p { state = stop_target mode p.state; stopping = suc p.stopping })
step p load_event = some (load_phase p p.stopping p.state)
step p (phase_event k pending active) = elim (pick k p.phases) [
  | none ↦ some p
  | some (s, others) ↦ stop_phase p others s pending active
]
step p stopped_event = some (mark_stopped p p.joining)

unfoldable pub steps : Pool → List Event → Option Pool
unfolding step
steps p [] = some p
steps p (e ∷ es) = elim (step p e) [ none ↦ none | some q ↦ steps q es ]
