-- ===== src/Adapter/Waiting.antt =====
-- The blocking calls of include/mpmc/blocking_queue_adapter.hpp against their specification.
use mathlib.Core.Path.{subst}
use cpp_mpmc_thread_pool.Base.{
  suc, ◌+◌, ◌<◌, ◌^◌, ◌≡◌, refl, ap, ◌⊎◌, inl, inr, true, false, none, some, List, [], ◌∷◌, arith,
  length, Bool-cases, ltb→lt, length-append,
}
use cpp_mpmc_thread_pool.Ring
use cpp_mpmc_thread_pool.Ring.{Ring, release_cell}
use cpp_mpmc_thread_pool.Ring.Repr.{Repr, InRange}
use cpp_mpmc_thread_pool.Ring.Fifo.{
  try_push-room, try_push-full, length_of_no_room, try_pop-nil, try_pop-cons,
}
use cpp_mpmc_thread_pool.Adapter.{
  Adapter, not_empty_one, not_full_one, Call, capacity, count_pushed,
}
use cpp_mpmc_thread_pool.Adapter.Spec.{
  View, Models, Becomes, has_room, view_push, view_steps, costs,
}
use cpp_mpmc_thread_pool.Adapter.Steps.{steps_refines}
use cpp_mpmc_thread_pool.Adapter.WaitSpec.{
  view_wait_push, view_wait_pop, view_first_look, round_costs,
}
use cpp_mpmc_thread_pool.Adapter.Wait.{
  refused, stored, no_room, attempt_push, push_loop, wait_push, attempt_pop, pop_loop, wait_pop,
  count_taken,
}

module _ {ℓ} {A : Type ℓ} where
  module _ {a : Adapter A} {v : View A} (m : Models a v) (small : InRange a.queue) (x : A) where
    pub attempt_push-closed : v.closed ≡ true → attempt_push a x ≡ some (refused, a)
    unfolding attempt_push
    attempt_push-closed h = ground arith

    pub attempt_push-room :
        v.closed ≡ false
        → has_room (capacity a) v ≡ true
        → (b : Adapter A) × (attempt_push a x ≡ some (stored, b))
          × Becomes a 1 b (view_push (capacity a) v x).1
    unfolding attempt_push view_push
    attempt_push-room is_open room =
        let (q, e, n) = try_push-room m.holds small x (ltb→lt _ _ room) in
        (
          count_pushed a q 1 not_empty_one,
          ground (arith, e),
          ground (arith, n, m.holds.counted, length-append v.items (x ∷ [])),
        )

    pub attempt_push-full :
        v.closed ≡ false → has_room (capacity a) v ≡ false → attempt_push a x ≡ some (no_room, a)
    unfolding attempt_push
    attempt_push-full is_open full_up =
        ground (arith, try_push-full m.holds small x (length_of_no_room m.holds small full_up))

  pub push_loop_refines :
      (rounds : List (List (Call A))) {a : Adapter A} {v : View A} (x : A)
      → Models a v
      → a.queue.producer_pos + suc (round_costs rounds) + capacity a < 2 ^ 63
      → let (r, w) = view_wait_push (capacity a) rounds v x in
        (b : Adapter A) × (push_loop rounds a x ≡ some (r, b))
        × Becomes a (suc (round_costs rounds)) b w
  unfolding push_loop view_wait_push
  push_loop_refines [] {a} {v} x m small = elim (Bool-cases v.closed) [
    | inl is_closed ↦
        (a, ground (arith, attempt_push-closed m (omega arith) x is_closed), ground (arith, m))
    | inr is_open ↦ elim (Bool-cases (has_room (capacity a) v)) [
      | inl room ↦
          let (b, e, w) = attempt_push-room m (omega arith) x is_open room in
          (b, ground (arith, e), ground (arith, w))
      | inr full_up ↦ (
        a,
        ground (arith, attempt_push-full m (omega arith) x is_open full_up),
        ground (arith, m),
      )
    ]
  ]
  push_loop_refines (round ∷ rounds) {a} {v} x m small = elim (Bool-cases v.closed) [
    | inl is_closed ↦
        (a, ground (arith, attempt_push-closed m (omega arith) x is_closed), ground (arith, m))
    | inr is_open ↦ elim (Bool-cases (has_room (capacity a) v)) [
      | inl room ↦
          let (b, e, w) = attempt_push-room m (omega arith) x is_open room in
          (b, ground (arith, e), ground (arith, w))
      | inr full_up ↦
          let e = attempt_push-full m (omega arith) x is_open full_up in
          let (b, f, w) = steps_refines round m (omega arith) in
          let (c, g, w') =
            push_loop_refines rounds x w.models (omega (arith, w.tickets, w.same_capacity)) in
          (
            c,
            ground (arith, e, f, g, w.same_capacity),
            ground (arith, w', w.same_capacity, w.tickets),
          )
    ]
  ]

  -- Whatever calls the other threads make before `WaitPush` has its mutex and during each of its
  -- waits, it does what the specification says of the queues it sees: refused by a closed queue,
  -- stored at the end of an open queue with room, and otherwise waiting again, as long as the
  -- calls keep the positions below 2^63.
  pub wait_push_refines :
      (locking : List (Call A)) (rounds : List (List (Call A))) {a : Adapter A} {v : View A} (x : A)
      → Models a v
      → a.queue.producer_pos + suc (costs locking + round_costs rounds) + capacity a < 2 ^ 63
      → let (r, w) = view_wait_push (capacity a) (locking ∷ rounds) v x in
        (b : Adapter A) × (wait_push locking rounds a x ≡ some (r, b))
        × Becomes a (suc (costs locking + round_costs rounds)) b w
  unfolding wait_push push_loop
  wait_push_refines locking rounds {a} {v} x m small =
      push_loop_refines (locking ∷ rounds) x m small

  -- One look of a consumer at the items `xs`.
  module _ {a : Adapter A} (v : View A) (m : Models a v) (small : InRange a.queue) where
    pub took :
        (x : A) (xs : List A)
        → v.items ≡ x ∷ xs
        → (q : Ring A) × (Ring.try_pop a.queue ≡ some (some x, q))
          × Becomes a 0
              (count_taken a q)
              (record v { items = xs; signals = not_full_one ∷ v.signals })
    took x xs e =
        let (h, n) = try_pop-cons x xs (subst (Repr a.queue) e m.holds) small in
        let k : length v.items ≡ suc (length xs) = ap length e in
        (
          release_cell a.queue a.queue.consumer_pos,
          h,
          record {
            models = record {
              holds = n.holds;
              counted = omega (arith, k, m.counted, m.holds.counted);
              discarded = m.discarded;
              shut = m.shut;
              signalled = ap (◌∷◌ not_full_one) m.signalled;
            };
            same_capacity = n.same_capacity;
            tickets = n.tickets;
          },
        )

    pub missed : v.items ≡ [] → Ring.try_pop a.queue ≡ some (none, a.queue)
    missed e = try_pop-nil (subst (Repr a.queue) e m.holds) small

  pub List-cases : (xs : List A) → (xs ≡ []) ⊎ ((x : A) × (ys : List A) × (xs ≡ x ∷ ys))
  List-cases [] = inl refl
  List-cases (x ∷ ys) = inr (x, ys, refl)

  pop_loop_refines :
      (rounds : List (List (Call A))) {a : Adapter A} {v : View A}
      → Models a v
      → a.queue.producer_pos + round_costs rounds + capacity a < 2 ^ 63
      → let (r, w) = view_wait_pop (capacity a) rounds v in
        (b : Adapter A) × (pop_loop rounds a ≡ some (r, b)) × Becomes a (round_costs rounds) b w
  unfolding pop_loop attempt_pop view_wait_pop
  pop_loop_refines [] {a} {v} m small = elim (List-cases v.items) [
    | inr (x, xs, e) ↦
        let (q, h, w) = took v m (omega arith) x xs e in
        (count_taken a q, ground (arith, h, e), ground (arith, w, e))
    | inl e ↦
        let h = missed v m (omega arith) e in
        (a, ground (arith, h, e, m.shut), ground (arith, m, e))
  ]
  pop_loop_refines (round ∷ rounds) {a} {v} m small = elim (List-cases v.items) [
    | inr (x, xs, e) ↦
        let (q, h, w) = took v m (omega arith) x xs e in
        (count_taken a q, ground (arith, h, e), ground (arith, w, e))
    | inl e ↦ elim (Bool-cases v.closed) [
      | inl is_closed ↦
          let h = missed v m (omega arith) e in
          (a, ground (arith, h, e, m.shut), ground (arith, m, e))
      | inr is_open ↦
          let h = missed v m (omega arith) e in
          let (b, f, w) = steps_refines round m (omega arith) in
          let (c, g, w') =
            pop_loop_refines rounds w.models (omega (arith, w.tickets, w.same_capacity)) in
          (
            c,
            ground (arith, h, e, f, g, m.shut, w.same_capacity),
            ground (arith, w', e, w.same_capacity, w.tickets),
          )
    ]
  ]

  -- Whatever calls the other threads make before `WaitPop` has its mutex and during each of its
  -- waits, it takes the oldest item of the first queue it sees that has one, also of a closed
  -- queue, returns without an item from an empty closed queue except at its first look, and
  -- otherwise waits again, as long as the calls keep the positions below 2^63.
  pub wait_pop_refines :
      (locking : List (Call A)) (rounds : List (List (Call A))) {a : Adapter A} {v : View A}
      → Models a v
      → a.queue.producer_pos + costs locking + round_costs rounds + capacity a < 2 ^ 63
      → let (r, w) =
          view_first_look v.items v
            (view_wait_pop (capacity a) rounds (view_steps (capacity a) v locking)) in
        (b : Adapter A) × (wait_pop locking rounds a ≡ some (r, b))
        × Becomes a (costs locking + round_costs rounds) b w
  unfolding wait_pop view_first_look
  wait_pop_refines locking rounds {a} {v} m small = elim (List-cases v.items) [
    | inr (x, xs, e) ↦
        let (q, h, w) = took v m (omega arith) x xs e in
        (count_taken a q, ground (arith, h, e), ground (arith, w, e))
    | inl e ↦
        let h = missed v m (omega arith) e in
        let (b, f, w) = steps_refines locking m (omega arith) in
        let (c, g, w') =
          pop_loop_refines rounds w.models (omega (arith, w.tickets, w.same_capacity)) in
        (
          c,
          ground (arith, h, e, f, g, w.same_capacity),
          ground (arith, w', e, w.same_capacity, w.tickets),
        )
  ]
