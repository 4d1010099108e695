-- ===== src/Pool/Working.antt =====
-- The count of tasks through `PostBatch`, the workers and the phases of `Stop`.
use cpp_mpmc_thread_pool.Base.{
  ℕ, zero, Bool, true, false, suc, ◌+◌, ◌-◌, ◌≤◌, ◌<◌, ◌^◌, ◌≡◌, refl, ap, ◌∙◌, inl, inr, some,
  List, [], ◌∷◌, arith, length, ◌==◌, Bool-cases, length-append, length-take, take, ◌&&◌,
}
use cpp_mpmc_thread_pool.Base.Words.{add_size}
use cpp_mpmc_thread_pool.Adapter
use cpp_mpmc_thread_pool.Adapter.{Adapter, capacity, not_full_one}
use cpp_mpmc_thread_pool.Adapter.Spec.{View, view_push_batch, view_clear, view_close, visit}
use cpp_mpmc_thread_pool.Adapter.Refine.{try_push_batch_refines, close_queue-Models}
use cpp_mpmc_thread_pool.Adapter.Steps.{clear_refines}
use cpp_mpmc_thread_pool.Adapter.Wait.{attempt_pop, count_taken}
use cpp_mpmc_thread_pool.Adapter.Waiting.{took, missed, List-cases}
use cpp_mpmc_thread_pool.Task.{SimpleTask, Outcome}
use cpp_mpmc_thread_pool.Pool.{
  Item, posted, exit_task, counts, Pool, PoolState, created, running, paused, shutting_down,
  force_stopping, stopped,
}
use cpp_mpmc_thread_pool.Pool.Calls.{
  look_at, run_task, record_task, load_phase, mark_stopped, post_batch, post_batch_running,
  take_task, finish_task, stop_phase, cancel_task,
}
use cpp_mpmc_thread_pool.Pool.Count.{Counted, weigh_fewer}
use cpp_mpmc_thread_pool.Pool.Lifecycle.{rank_top}
use mathlib.Core.List.{map}

-- The visitor of a forced stop counts what it sees.
visit-cancel_task :
    (xs : List Item) (n : ℕ) → n + length xs < 2 ^ 64 → visit cancel_task xs n ≡ n + length xs
unfolding cancel_task
visit-cancel_task [] n small = omega arith
visit-cancel_task (x ∷ xs) n small = visit-cancel_task xs (add_size n 1) (omega arith) ∙ omega arith

-- A batch push takes in as many items as it says, which are not more than it was given.
view_push_batch_items :
    (cap : ℕ) (v : View Item) (xs : List Item)
    → let (count, w) = view_push_batch cap v xs in
      (length w.items ≡ length v.items + count) × (count ≤ length xs)
unfolding view_push_batch
view_push_batch_items cap v xs = elim (Bool-cases v.closed) [
  | inl is_closed ↦ (ground (arith, is_closed), ground (arith, is_closed))
  | inr is_open ↦ (
    ground (
      arith,
      is_open,
      length-append v.items (take (cap - length v.items) xs),
      length-take (cap - length v.items) xs,
    ),
    ground (arith, is_open),
  )
]

length-posted : (ts : List SimpleTask) → length (map posted ts) ≡ length ts
length-posted [] = refl
length-posted (t ∷ ts) = ap suc (length-posted ts)

module _ {p : Pool} {low n k cap : ℕ} (small : n + k + cap < 2 ^ 63) where
  pub take_task-Counted :
      Counted p low 0 n k cap → (q : Pool) × (take_task p ≡ some q) × Counted q low 0 n k cap
  unfolding take_task attempt_pop
  take_task-Counted c =
      let fits : p.queue.queue.producer_pos + capacity p.queue < 2 ^ 63 =
        omega (arith, c.offered, c.tickets, c.same_capacity) in
      elim (List-cases c.view.items) [
        | inl e ↦ (p, ground (arith, missed c.view c.models fits e), c)
        | inr (x, xs, e) ↦
            let (r, h, b) = took c.view c.models fits x xs e in
            (
              record p { queue = count_taken p.queue r; popped = x ∷ p.popped },
              ground (arith, h),
              record {
                view = record c.view { items = xs; signals = not_full_one ∷ c.view.signals };
                models = b.models;
                same_capacity = b.same_capacity ∙ c.same_capacity;
                active = c.active;
                ended = c.ended;
                accepted = omega (arith, c.accepted, ap length e);
                offered = c.offered;
                sent = c.sent;
                reached = c.reached;
                tickets = omega (arith, c.tickets, b.tickets);
              },
            )
      ]

  pub look_at-Counted :
      (x : Item) (rest : List Item) (own : Bool)
      → Counted p low 0 n k cap
      → length p.popped ≡ suc (length rest)
      → Counted (look_at (record p { popped = rest }) x own) low 0 n k cap
  unfolding look_at
  look_at-Counted (posted t) rest own c l = ground (arith, c, l, weigh_fewer p.returning)
  look_at-Counted (exit_task slot) rest true c l = ground (arith, c, l)
  look_at-Counted (exit_task slot) rest false c l = ground (arith, c, l)

  pub run_task-Counted :
      (t : SimpleTask) (rest : List SimpleTask) (r : Outcome (Unit {0}))
      → Counted p low 0 n k cap
      → length p.starting ≡ suc (length rest)
      → Counted (run_task (record p { starting = rest }) t r) low 0 n k cap
  unfolding run_task
  run_task-Counted t rest r c l = ground (arith, c, l)

  pub record_task-Counted :
      (t : SimpleTask) (rest : List SimpleTask) (ns : ℕ)
      → Counted p low 0 n k cap
      → length p.ran ≡ suc (length rest)
      → Counted (record_task (record p { ran = rest }) t ns) low 0 n k cap
  unfolding record_task
  record_task-Counted t rest ns c l = elim (Bool-cases t.ok) [
    | inl ok ↦ ground (arith, c, ok, l, weigh_fewer p.returning)
    | inr failed ↦ ground (arith, c, failed, l, weigh_fewer p.returning)
  ]

  pub finish_task-Counted :
      (m : ℕ) → p.ending ≡ m → Counted p low 0 n k cap → Counted (finish_task p m) low 0 n k cap
  unfolding finish_task
  finish_task-Counted zero e c = c
  finish_task-Counted (suc m) e c = ground (arith, c, e, weigh_fewer p.returning)

  pub post_batch-Counted :
      (ts : List SimpleTask) (s : PoolState)
      → Counted p low (length ts) n k cap
      → (q : Pool) × (post_batch p ts s ≡ some q) × Counted q low 0 n k cap
  unfolding post_batch post_batch_running
  post_batch-Counted ts running c =
      let given = length-posted ts in
      let (a, h, b) =
        try_push_batch_refines c.view c.models
          (omega (arith, c.offered, c.tickets, c.same_capacity, given)) (map posted ts)
          (omega (arith, c.offered, c.tickets, c.same_capacity, given)) in
      let (count, w) = view_push_batch (capacity p.queue) c.view (map posted ts) in
      let pushes = view_push_batch_items (capacity p.queue) c.view (map posted ts) in
      (
        record p {
          queue = a;
          returning = counts count ∷ p.returning;
          turned_away = p.turned_away + (length ts - count);
        },
        ground (arith, h),
        record {
          view = w;
          models = b.models;
          same_capacity = b.same_capacity ∙ c.same_capacity;
          active = c.active;
          ended = c.ended;
          accepted = omega (arith, c.accepted, pushes.0);
          offered = omega (arith, c.offered, pushes.1, given);
          sent = c.sent;
          reached = c.reached;
          tickets = omega (arith, c.tickets, b.tickets, c.offered, pushes.1, given);
        },
      )
  post_batch-Counted ts created c = (_, refl, ground (arith, c))
  post_batch-Counted ts paused c = (_, refl, ground (arith, c))
  post_batch-Counted ts shutting_down c = (_, refl, ground (arith, c))
  post_batch-Counted ts force_stopping c = (_, refl, ground (arith, c))
  post_batch-Counted ts stopped c = (_, refl, ground (arith, c))

  pub load_phase-Counted :
      (m : ℕ) (s : PoolState) → Counted p low 0 n k cap → Counted (load_phase p m s) low 0 n k cap
  unfolding load_phase
  load_phase-Counted zero s c = c
  load_phase-Counted (suc m) stopped c = ground (arith, c)
  load_phase-Counted (suc m) created c = ground (arith, c)
  load_phase-Counted (suc m) running c = ground (arith, c)
  load_phase-Counted (suc m) paused c = ground (arith, c)
  load_phase-Counted (suc m) shutting_down c = ground (arith, c)
  load_phase-Counted (suc m) force_stopping c = ground (arith, c)

  closed-Counted :
      (others : List PoolState)
      → Counted p low 0 n k cap
      → Counted
          (record p {
            queue = Adapter.close_queue p.queue;
            phases = others;
            joining = suc p.joining;
          })
          low
          0
          n
          k
          cap
  unfolding Adapter.close_queue view_close
  closed-Counted others c = record {
    view = view_close c.view;
    models =
        close_queue-Models c.view c.models (omega (arith, c.offered, c.tickets, c.same_capacity));
    same_capacity = c.same_capacity;
    active = c.active;
    ended = c.ended;
    accepted = c.accepted;
    offered = c.offered;
    sent = c.sent;
    reached = c.reached;
    tickets = c.tickets;
  }

  pub stop_phase-Counted :
      (others : List PoolState) (s : PoolState) (pending active : ℕ)
      → Counted p low 0 n k cap
      → (q : Pool) × (stop_phase p others s pending active ≡ some q) × Counted q low 0 n k cap
  unfolding stop_phase Adapter.close_queue view_close view_clear
  stop_phase-Counted others shutting_down pending active c =
      elim (Bool-cases ((pending == 0) && (active == 0))) [
        | inl drained ↦ (
          record p {
            queue = Adapter.close_queue p.queue;
            phases = others;
            joining = suc p.joining;
          },
          ground (arith, drained),
          closed-Counted others c,
        )
        | inr busy ↦ (p, ground (arith, busy), c)
      ]
  stop_phase-Counted others force_stopping pending active c =
      let (a, h, b) =
        clear_refines cancel_task c.view p.total_cancelled c.models
          (omega (arith, c.offered, c.tickets, c.same_capacity)) in
      let e =
        visit-cancel_task c.view.items p.total_cancelled
          (omega (arith, c.offered, c.accepted, c.sent, weigh_fewer p.returning)) in
      (
        record p {
          queue = Adapter.close_queue a;
          total_cancelled = visit cancel_task c.view.items p.total_cancelled;
          phases = others;
          joining = suc p.joining;
        },
        ground (arith, h),
        record {
          view = view_close (view_clear c.view);
          models =
              close_queue-Models (view_clear c.view) b.models
                (omega (arith, c.offered, c.tickets, c.same_capacity, b.tickets, b.same_capacity));
          same_capacity = b.same_capacity ∙ c.same_capacity;
          active = c.active;
          ended = c.ended;
          accepted = omega (arith, c.accepted, e);
          offered = c.offered;
          sent = c.sent;
          reached = c.reached;
          tickets = omega (arith, c.tickets, b.tickets);
        },
      )
  stop_phase-Counted others running pending active c = (_, refl, ground (arith, c))
  stop_phase-Counted others created pending active c = (_, refl, ground (arith, c))
  stop_phase-Counted others paused pending active c = (_, refl, ground (arith, c))
  stop_phase-Counted others stopped pending active c = (_, refl, ground (arith, c))

  pub mark_stopped-Counted :
      (m : ℕ) → Counted p low 0 n k cap → Counted (mark_stopped p m) low 0 n k cap
  unfolding mark_stopped
  mark_stopped-Counted zero c = c
  mark_stopped-Counted (suc m) c = ground (arith, c, rank_top p.state)
