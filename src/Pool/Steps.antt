-- ===== src/Pool/Steps.antt =====
-- The count of tasks and the state through any sequence of steps of a pool.
use cpp_mpmc_thread_pool.Base.{
  ℕ, suc, ◌+◌, ◌≤◌, ◌<◌, ◌^◌, ◌≡◌, refl, inl, inr, some, List, [], ◌∷◌, arith, length,
}
use cpp_mpmc_thread_pool.Ring
use cpp_mpmc_thread_pool.Adapter
use cpp_mpmc_thread_pool.Adapter.Spec.{View, Models, new_view}
use cpp_mpmc_thread_pool.Adapter.Steps.{make-Models}
use cpp_mpmc_thread_pool.Task.{SimpleTask}
use cpp_mpmc_thread_pool.Pool.{
  Item, Pool, PoolState, created, running, paused, shutting_down, force_stopping, stopped,
  QueueFullPolicy, make,
}
use cpp_mpmc_thread_pool.Pool.Calls.{
  check_state, return_step, look_at, run_task, record_task, finish_task, load_phase, mark_stopped,
}
use cpp_mpmc_thread_pool.Pool.Schedule.{
  Event, post_event, check_event, dispatch_event, push_event, wake_event, return_event, batch_event,
  exit_event, exit_push_event, take_event, look_event, run_event, record_event, finish_event,
  start_event, pause_event, resume_event, policy_event, stop_event, load_event, phase_event,
  stopped_event, wake, step, steps,
}
use cpp_mpmc_thread_pool.Pool.Count.{
  Counted, rank, inside, landed, replaced, in_hand, pick-length, pick-weigh, offers, all_offers,
  exit_signals, all_exit_signals,
}
use cpp_mpmc_thread_pool.Pool.Lifecycle.{start-rank, pause-rank, resume-rank, stop_target-rank}
use cpp_mpmc_thread_pool.Pool.Posting.{
  check_state-Counted, wait_push_look-Counted, dispatch-Counted, return_step-Counted,
  exit_push_look-Counted,
}
use cpp_mpmc_thread_pool.Pool.Working.{
  take_task-Counted, look_at-Counted, run_task-Counted, record_task-Counted, finish_task-Counted,
  post_batch-Counted, load_phase-Counted, stop_phase-Counted, mark_stopped-Counted,
}

wake-Counted :
    {p : Pool} {low n k cap : ℕ} (t : SimpleTask) (rest : List SimpleTask) (s : PoolState)
    → length p.pausing ≡ suc (length rest)
    → Counted p low 0 n k cap
    → Counted (wake p t rest s) low 0 n k cap
unfolding wake
wake-Counted t rest paused l c = c
wake-Counted t rest created l c = ground (arith, c, l)
wake-Counted t rest running l c = ground (arith, c, l)
wake-Counted t rest shutting_down l c = ground (arith, c, l)
wake-Counted t rest force_stopping l c = ground (arith, c, l)
wake-Counted t rest stopped l c = ground (arith, c, l)

step-Counted :
    (e : Event) {p : Pool} {low n k cap : ℕ}
    → Counted p low 0 n k cap
    → n + offers e + (k + exit_signals e) + cap < 2 ^ 63
    → (q : Pool) × (step p e ≡ some q) × Counted q low 0 (n + offers e) (k + exit_signals e) cap
unfolding step
step-Counted (post_event t) {p} c small =
    (record p { checking = t ∷ p.checking }, refl, ground (arith, c))
step-Counted (check_event j) {p} {low} {n} {k} {cap} c small = elim (pick-length j p.checking) [
  | inl e ↦ (p, ground (arith, e), ground (arith, c))
  | inr (t, rest, e, l) ↦
      let d : Counted (record p { checking = rest }) low 1 (n + 0) (k + 0) cap =
        ground (arith, c, l) in
      (
        check_state (record p { checking = rest }) t p.state,
        ground (arith, e),
        check_state-Counted small t p.state d,
      )
]
step-Counted (wake_event j) {p} c small = elim (pick-length j p.pausing) [
  | inl e ↦ (p, ground (arith, e), ground (arith, c))
  | inr (t, rest, e, l) ↦
      (wake p t rest p.state, ground (arith, e), wake-Counted t rest p.state l (ground (arith, c)))
]
step-Counted (dispatch_event j) {p} {low} {n} {k} {cap} c small =
    elim (pick-length j p.dispatching) [
      | inl e ↦ (p, ground (arith, e), ground (arith, c))
      | inr (t, rest, e, l) ↦
          let d : Counted (record p { dispatching = rest }) low 1 (n + 0) (k + 0) cap =
            ground (arith, c, l) in
          let (q, h, d') = dispatch-Counted small t p.policy d in (q, ground (arith, e, h), d')
    ]
step-Counted (push_event j) {p} {low} {n} {k} {cap} c small = elim (pick-length j p.pushing) [
  | inl e ↦ (p, ground (arith, e), ground (arith, c))
  | inr (t, rest, e, l) ↦
      let d : Counted (record p { pushing = rest }) low 1 (n + 0) (k + 0) cap =
        ground (arith, c, l) in
      let (q, h, d') = wait_push_look-Counted small t d in (q, ground (arith, e, h), d')
]
step-Counted (batch_event ts) {p} c small = post_batch-Counted small ts p.state (ground (arith, c))
step-Counted take_event {p} c small = take_task-Counted small (ground (arith, c))
step-Counted (return_event j) {p} c small = elim (pick-weigh j p.returning) [
  | inl e ↦ (p, ground (arith, e), ground (arith, c))
  | inr (r, rest, e, o, l, d) ↦ (
    return_step (record p { returning = rest }) r,
    ground (arith, e),
    return_step-Counted small r rest (ground (arith, c)) o l d,
  )
]
step-Counted (exit_event slot) {p} c small = (
  record p { exiting = slot ∷ p.exiting; exits_sent = suc p.exits_sent },
  refl,
  ground (arith, c),
)
step-Counted (exit_push_event j) {p} {low} {n} {k} {cap} c small = elim (pick-length j p.exiting) [
  | inl e ↦ (p, ground (arith, e), ground (arith, c))
  | inr (slot, rest, e, l) ↦
      let d : Counted p low 0 (n + 0) k cap = ground (arith, c) in
      let (q, h, d') = exit_push_look-Counted (omega arith) slot rest d l (omega arith) in
      (q, ground (arith, e, h), d')
]
step-Counted (look_event j own) {p} c small = elim (pick-length j p.popped) [
  | inl e ↦ (p, ground (arith, e), ground (arith, c))
  | inr (x, rest, e, l) ↦ (
    look_at (record p { popped = rest }) x own,
    ground (arith, e),
    look_at-Counted small x rest own (ground (arith, c)) l,
  )
]
step-Counted (run_event j r) {p} c small = elim (pick-length j p.starting) [
  | inl e ↦ (p, ground (arith, e), ground (arith, c))
  | inr (t, rest, e, l) ↦ (
    run_task (record p { starting = rest }) t r,
    ground (arith, e),
    run_task-Counted small t rest r (ground (arith, c)) l,
  )
]
step-Counted (record_event j ns) {p} c small = elim (pick-length j p.ran) [
  | inl e ↦ (p, ground (arith, e), ground (arith, c))
  | inr (t, rest, e, l) ↦ (
    record_task (record p { ran = rest }) t ns,
    ground (arith, e),
    record_task-Counted small t rest ns (ground (arith, c)) l,
  )
]
step-Counted finish_event {p} c small =
    (finish_task p p.ending, refl, finish_task-Counted small p.ending refl (ground (arith, c)))
step-Counted start_event {p} c small = (_, refl, ground (arith, c, start-rank p.state))
step-Counted pause_event {p} c small = (_, refl, ground (arith, c, pause-rank p.state))
step-Counted resume_event {p} c small = (_, refl, ground (arith, c, resume-rank p.state))
step-Counted (policy_event policy) {p} c small = (_, refl, ground (arith, c))
step-Counted (stop_event mode) {p} c small =
    (_, refl, ground (arith, c, stop_target-rank mode p.state))
step-Counted load_event {p} c small = (
  load_phase p p.stopping p.state,
  refl,
  load_phase-Counted small p.stopping p.state (ground (arith, c)),
)
step-Counted (phase_event j pending active) {p} c small = elim (pick-length j p.phases) [
  | inl e ↦ (p, ground (arith, e), ground (arith, c))
  | inr (s, others, e, l) ↦
      let (q, h, d) =
        stop_phase-Counted {p = p} small others s pending active (ground (arith, c)) in
      (q, ground (arith, e, h), d)
]
step-Counted stopped_event {p} c small =
    (mark_stopped p p.joining, refl, mark_stopped-Counted small p.joining (ground (arith, c)))

steps-Counted :
    (es : List Event) {p : Pool} {low n k cap : ℕ}
    → Counted p low 0 n k cap
    → n + all_offers es + (k + all_exit_signals es) + cap < 2 ^ 63
    → (q : Pool) × (steps p es ≡ some q)
      × Counted q low 0 (n + all_offers es) (k + all_exit_signals es) cap
unfolding steps
steps-Counted [] {p} c small = (p, refl, ground (arith, c))
steps-Counted (e ∷ es) {p} {low} {n} {k} {cap} c small =
    let (q, h, d) = step-Counted e c (omega arith) in
    let (q', h', d') = steps-Counted es d (omega arith) in
    (q', ground (arith, h, h'), ground (arith, d'))

pub make-Counted :
    (queue_cap : ℕ) (policy : QueueFullPolicy)
    → queue_cap ≤ 2 ^ 62
    → Counted (make queue_cap policy) 0 0 0 0 (make queue_cap policy).queue.queue.capacity
unfolding Adapter.make Ring.make
make-Counted queue_cap policy small =
    let (m, fits, large) = make-Models Item queue_cap small in
    record {
      view = new_view;
      models = m;
      same_capacity = refl;
      active = refl;
      ended = omega arith;
      accepted = refl;
      offered = refl;
      sent = omega arith;
      reached = omega arith;
      tickets = omega arith;
    }

-- Whatever steps of `Post`, `PostBatch`, the workers, the exit tasks of the load balancer,
-- `Start`, `Pause`, `Resume`, `SetQueueFullPolicy` and `Stop` follow in whatever order on a new
-- pool, without calls of `Submit` and `ResetStatistics`, with a queue capacity of at most 2^62 and
-- tasks offered and exit tasks made or tried fewer than 2^63 less the capacity, no step faults,
-- and every task that was offered is accounted for once: it is in a call of `Post` or `PostBatch`
-- that has not counted it yet, was rejected, was turned away by `PostBatch`, or is counted as
-- submitted. The submitted tasks, those that the queue took in and that are not counted yet, and
-- the exit tasks of the load balancer are the items in the queue, what workers and waiting pushes
-- of exit tasks have in hand, the tasks counted as completed or failed, the items counted as
-- cancelled, the overwritten ones that are not counted yet, and the exit tasks that are gone; and
-- the count of active tasks is the number of workers between `TaskOn` and `TaskOff`.
pub tasks_conserved :
    (queue_cap : ℕ) (policy : QueueFullPolicy) (es : List Event)
    → queue_cap ≤ 2 ^ 62
    → all_offers es + all_exit_signals es + (make queue_cap policy).queue.queue.capacity < 2 ^ 63
    → (p : Pool) × (steps (make queue_cap policy) es ≡ some p)
      × (all_offers es ≡ p.total_submitted + p.total_rejected + p.turned_away + inside p)
      × ((v : View Item) × Models p.queue v
          × (p.total_submitted + landed p + p.exits_sent
              ≡ length v.items
                + in_hand p
                + p.total_completed
                + p.total_failed
                + p.total_cancelled
                + replaced p
                + p.exits_gone))
      × (p.active_tasks ≡ length p.starting + length p.ran + p.ending)
tasks_conserved queue_cap policy es small fits =
    let (p, h, c) = steps-Counted es (make-Counted queue_cap policy small) (omega (arith, fits)) in
    (p, h, omega (arith, c.offered), (c.view, c.models, c.accepted), c.active)

-- From a pool whose tasks are accounted for, whatever steps follow, the pool never goes back on
-- its way from created over running or paused, shutting down and force stopping to stopped, if the
-- tasks offered in all and the exit tasks made or tried are fewer than 2^63 less the capacity.
pub never_back :
    (es : List Event) {p : Pool} {n k cap : ℕ}
    → Counted p (rank p.state) 0 n k cap
    → n + all_offers es + (k + all_exit_signals es) + cap < 2 ^ 63
    → (q : Pool) × (steps p es ≡ some q) × (rank p.state ≤ rank q.state)
never_back es c small = let (q, h, d) = steps-Counted es c small in (q, h, d.reached)
