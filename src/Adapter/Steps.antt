-- ===== src/Adapter/Steps.antt =====
-- `Clear`, and whole histories of calls of the adapter, against its specification.
use cpp_mpmc_thread_pool.Base.{
  ℕ, zero, suc, ◌+◌, ◌≤◌, ◌<◌, ◌^◌, ◌≡◌, refl, ◌∙◌, some, List, [], ◌∷◌, arith, length,
}
use cpp_mpmc_thread_pool.Ring.{Ring}
use cpp_mpmc_thread_pool.Ring.Repr.{Repr, InRange}
use cpp_mpmc_thread_pool.Ring.Fifo.{After, try_pop-nil, try_pop-cons}
use cpp_mpmc_thread_pool.Ring.Capacity.{make-Repr}
use cpp_mpmc_thread_pool.Adapter.{
  Adapter, not_full_all, Call, push_call, overwrite_call, push_batch_call, pop_batch_call, pop_call,
  close_call, clear_call, capacity, close_queue, make, drain, clear, step, steps,
}
use cpp_mpmc_thread_pool.Adapter.Spec.{
  View, new_view, Models, Becomes, visit, cost, costs, view_clear, view_step, view_steps,
}
use cpp_mpmc_thread_pool.Adapter.Refine.{
  try_push_refines, try_pop_refines, overwrite_push_refines, close_queue-Models,
  try_push_batch_refines, try_pop_batch_refines,
}

module _ {ℓ κ} {A : Type ℓ} {S : Type κ} (visitor : A → S → S) where
  -- More fuel than items is enough, and every item is visited once, oldest first.
  drain_lem :
      (fuel : ℕ) (xs : List A) (s : S) {q : Ring A}
      → Repr q xs
      → InRange q
      → length xs < fuel
      → (q' : Ring A) × (drain fuel q visitor s ≡ some (visit visitor xs s, q')) × After q 0 q' []
  unfolding drain
  drain_lem zero xs s v small h = absurd (omega arith)
  drain_lem (suc fuel) [] s {q} v small h = (
    q,
    ground (arith, try_pop-nil v small),
    record { holds = v; same_capacity = refl; tickets = omega arith },
  )
  drain_lem (suc fuel) (x ∷ xs) s {q} v small h =
      let (e, n) = try_pop-cons x xs v small in
      let (q', e', n') =
        drain_lem fuel xs (visitor x s) n.holds (omega (arith, n.tickets, n.same_capacity))
          (omega arith) in
      (
        q',
        ground (arith, e, e'),
        record {
          holds = n'.holds;
          same_capacity = n'.same_capacity ∙ n.same_capacity;
          tickets = omega (arith, n.tickets, n'.tickets);
        },
      )

  -- `Clear` with a visitor terminates, hands every item of the queue to the visitor once, oldest
  -- first, and leaves an empty queue with a pending count of 0 and one notification of the
  -- producers, if the positions are below 2^63.
  pub clear_refines :
      {a : Adapter A} (v : View A) (s : S)
      → Models a v
      → InRange a.queue
      → (b : Adapter A) × (clear a visitor s ≡ some (visit visitor v.items s, b))
        × Becomes a 0 b (view_clear v)
  unfolding clear view_clear
  clear_refines {a} v s m small =
      let (q, e, n) =
        drain_lem (suc (capacity a)) v.items s m.holds small (omega (arith, m.holds.fits)) in
      (
        record a { queue = q; pending_count = 0; signals = not_full_all ∷ a.signals },
        ground (arith, e),
        ground (arith, n),
      )

module _ {ℓ} {A : Type ℓ} where
  -- Every call that does not block does what the specification says.
  pub step_refines :
      (c : Call A) {a : Adapter A} {v : View A}
      → Models a v
      → a.queue.producer_pos + cost c + capacity a < 2 ^ 63
      → (b : Adapter A) × (step a c ≡ some b) × Becomes a (cost c) b (view_step (capacity a) v c)
  unfolding step view_step close_queue
  step_refines (push_call x) m small =
      let (b, e, w) = try_push_refines m (omega arith) x in (b, ground (arith, e), w)
  step_refines (overwrite_call x) {a} {v} m small =
      let (b, e, w) = overwrite_push_refines v m (omega arith) x in (b, ground (arith, e), w)
  step_refines (push_batch_call xs) {a} {v} m small =
      let (b, e, w) = try_push_batch_refines v m (omega arith) xs small in (b, ground (arith, e), w)
  step_refines (pop_batch_call n) {a} {v} m small =
      let (b, e, w) = try_pop_batch_refines v m (omega arith) n in (b, ground (arith, e), w)
  step_refines pop_call {a} {v} m small =
      let (b, e, w) = try_pop_refines v m (omega arith) in (b, ground (arith, e), w)
  step_refines close_call {a} {v} m small = (
    close_queue a,
    refl,
    record {
      models = close_queue-Models v m (omega arith);
      same_capacity = refl;
      tickets = omega arith;
    },
  )
  step_refines clear_call {a} {v} m small =
      let (b, e, w) = clear_refines {S = Unit {0}} (λ _ s. s) v tt m (omega arith) in
      (b, ground (arith, e), w)

  -- Any history of non-blocking calls of the adapter (push, pop, batch push, batch pop, overwrite,
  -- clear, close) runs without a fault and leaves an adapter that stands for what the closable
  -- bounded queue of the specification becomes by the same calls: its items, its pending count,
  -- its discards, its flag and its notifications, as long as the tickets the calls may take keep
  -- the positions below 2^63.
  pub steps_refines :
      (cs : List (Call A)) {a : Adapter A} {v : View A}
      → Models a v
      → a.queue.producer_pos + costs cs + capacity a < 2 ^ 63
      → (b : Adapter A) × (steps a cs ≡ some b)
        × Becomes a (costs cs) b (view_steps (capacity a) v cs)
  unfolding steps view_steps
  steps_refines [] {a} m small =
      (a, refl, record { models = m; same_capacity = refl; tickets = omega arith })
  steps_refines (c ∷ cs) {a} {v} m small =
      let (b, e, w) = step_refines c m (omega arith) in
      let (b', e', w') = steps_refines cs w.models (omega (arith, w.tickets, w.same_capacity)) in
      (b', ground (arith, e, e'), ground (arith, w', w.same_capacity, w.tickets))

-- What the constructor makes is an open queue with no items and room for what was asked.
pub make-Models {ℓ} :
    (A : Type ℓ) (n : ℕ)
    → n ≤ 2 ^ 62
    → Models (make {A = A} n) new_view
      × InRange (make {A = A} n).queue
      × (n ≤ capacity (make {A = A} n))
unfolding make
make-Models A n small =
    let (v, fits, large) = make-Repr A n small in
    (
      record { holds = v; counted = refl; discarded = refl; shut = refl; signalled = refl },
      fits,
      large,
    )
