-- ===== src/Adapter/WaitBatching.antt =====
-- `WaitPushBatch` of include/mpmc/blocking_queue_adapter.hpp against its specification.
use cpp_mpmc_thread_pool.Base.{
  ℕ, ◌+◌, ◌≤◌, ◌<◌, ◌^◌, ◌≡◌, refl, ◌∙◌, ◌⊎◌, inl, inr, Bool, true, false, some, List, [], ◌∷◌,
  arith, length, drop, Bool-cases, ltb→lt, length-append,
}
use cpp_mpmc_thread_pool.Ring.Repr.{InRange}
use cpp_mpmc_thread_pool.Ring.Fifo.{try_push-room, try_push-full, length_of_no_room}
use cpp_mpmc_thread_pool.Adapter.{Adapter, not_empty_one, capacity, count_pushed}
use cpp_mpmc_thread_pool.Adapter.Spec.{View, Models, Becomes, has_room, view_push_batch, view_steps}
use cpp_mpmc_thread_pool.Adapter.Refine.{try_push_batch_refines}
use cpp_mpmc_thread_pool.Adapter.Steps.{steps_refines}
use cpp_mpmc_thread_pool.Adapter.Wait.{Waited, returned, blocked}
use cpp_mpmc_thread_pool.Adapter.Waiting.{push_loop_refines}
use cpp_mpmc_thread_pool.Adapter.WaitBatch.{
  Turn, attempt_element, push_element, push_rest, wait_push_batch,
}
use cpp_mpmc_thread_pool.Adapter.WaitBatchSpec.{
  view_append, turn_cost, turn_costs, view_element, view_rest, view_wait_push_batch,
  view_total_count,
}

pub Waited-cases : (r : Waited Bool) → (r ≡ returned true) ⊎ ((r ≡ returned false) ⊎ (r ≡ blocked))
Waited-cases (returned true) = inl refl
Waited-cases (returned false) = inr (inl refl)
Waited-cases blocked = inr (inr refl)

module _ {ℓ} {A : Type ℓ} where
  pub then_Becomes :
      {a b c : Adapter A} {v w : View A} (m n : ℕ)
      → Becomes a m b v
      → Becomes b n c w
      → Becomes a (m + n) c w
  then_Becomes m n h k = record {
    models = k.models;
    same_capacity = k.same_capacity ∙ h.same_capacity;
    tickets = omega (arith, h.tickets, k.tickets);
  }

  pub more_Becomes :
      {a b : Adapter A} {v : View A} (m n : ℕ) → Becomes a m b v → m ≤ n → Becomes a n b v
  more_Becomes m n h le = record {
    models = h.models;
    same_capacity = h.same_capacity;
    tickets = omega (arith, h.tickets);
  }

  module _ {a : Adapter A} {v : View A} (m : Models a v) (small : InRange a.queue) (x : A) where
    attempt_element-room :
        has_room (capacity a) v ≡ true
        → (b : Adapter A) × (attempt_element a x ≡ some (true, b)) × Becomes a 1 b (view_append v x)
    unfolding attempt_element
    attempt_element-room room =
        let (q, e, n) = try_push-room m.holds small x (ltb→lt _ _ room) in
        (
          count_pushed a q 1 not_empty_one,
          ground (arith, e),
          ground (arith, n, m.holds.counted, length-append v.items (x ∷ [])),
        )

    attempt_element-full : has_room (capacity a) v ≡ false → attempt_element a x ≡ some (false, a)
    unfolding attempt_element
    attempt_element-full full_up =
        ground (arith, try_push-full m.holds small x (length_of_no_room m.holds small full_up))

  push_element_refines :
      (t : Turn A) {a : Adapter A} {v : View A} (x : A)
      → Models a v
      → a.queue.producer_pos + turn_cost t + capacity a < 2 ^ 63
      → let (r, w) = view_element (capacity a) t v x in
        (b : Adapter A) × (push_element t a x ≡ some (r, b)) × Becomes a (turn_cost t) b w
  unfolding push_element view_element
  push_element_refines t {a} {v} x m small =
      let (b, e, w) = steps_refines t.before m (omega arith) in
      elim (Bool-cases (has_room (capacity b) (view_steps (capacity a) v t.before))) [
        | inl room ↦
            let (c, f, w') =
              attempt_element-room w.models (omega (arith, w.tickets, w.same_capacity)) x room in
            (
              c,
              ground (arith, e, f, w.same_capacity),
              ground (arith, w', w.same_capacity, w.tickets, room),
            )
        | inr full_up ↦
            let f =
              attempt_element-full w.models (omega (arith, w.tickets, w.same_capacity)) x full_up in
            let (c, g, w') =
              steps_refines t.locking w.models (omega (arith, w.tickets, w.same_capacity)) in
            let (d, h, w'') =
              push_loop_refines t.rounds x w'.models
                (omega (arith, w.tickets, w.same_capacity, w'.tickets, w'.same_capacity)) in
            (
              d,
              ground (arith, e, f, g, h, w.same_capacity, w'.same_capacity),
              ground
                  (arith, w'', w'.same_capacity, w'.tickets, w.same_capacity, w.tickets, full_up),
            )
      ]

  push_rest_refines :
      (turns : List (Turn A)) (xs : List A) (n : ℕ) {a : Adapter A} {v : View A}
      → Models a v
      → a.queue.producer_pos + turn_costs turns + capacity a < 2 ^ 63
      → let (r, w) = view_rest (capacity a) turns v xs n in
        (b : Adapter A) × (push_rest turns a xs n ≡ some (r, b)) × Becomes a (turn_costs turns) b w
  unfolding push_rest view_rest
  push_rest_refines turns [] n {a} m small =
      (a, refl, record { models = m; same_capacity = refl; tickets = omega arith })
  push_rest_refines [] (x ∷ xs) n {a} m small =
      (a, refl, record { models = m; same_capacity = refl; tickets = omega arith })
  push_rest_refines (t ∷ turns) (x ∷ xs) n {a} {v} m small =
      let (b, e, w) = push_element_refines t x m (omega arith) in
      elim (Waited-cases (view_element (capacity a) t v x).0) [
        | inl stored ↦
            let (c, f, w') =
              push_rest_refines turns xs (n + 1) w.models
                (omega (arith, w.tickets, w.same_capacity)) in
            (
              c,
              ground (arith, e, f, stored, w.same_capacity),
              ground (arith, w', w.same_capacity, w.tickets, stored),
            )
        | inr (inl stop) ↦ (b, ground (arith, e, stop), ground (arith, w, stop))
        | inr (inr wait) ↦ (b, ground (arith, e, wait), ground (arith, w, wait))
      ]

  -- Whatever calls the other threads make between the elements of `WaitPushBatch`, before it has
  -- its mutex and during its waits, it does what the specification says: on a closed queue it
  -- pushes nothing, otherwise as many elements as fit at once, and then each of the rest in its
  -- order as soon as there is room, also after the queue was closed in between, until a wait finds
  -- the queue closed; it returns how many it pushed and writes the number of elements to
  -- `total_count` unless the queue was closed at its start, as long as the calls keep the
  -- positions below 2^63.
  pub wait_push_batch_refines :
      (turns : List (Turn A)) (total_count : ℕ) (xs : List A) {a : Adapter A} {v : View A}
      → Models a v
      → a.queue.producer_pos + (length xs + turn_costs turns) + capacity a < 2 ^ 63
      → let (r, w) = view_wait_push_batch (capacity a) turns v xs in
        (b : Adapter A) × (wait_push_batch turns a total_count xs
          ≡ some (r, view_total_count v total_count xs, b))
        × Becomes a (length xs + turn_costs turns) b w
  unfolding wait_push_batch view_wait_push_batch
  wait_push_batch_refines turns total_count [] {a} {v} m small =
      let b : Becomes a (0 + turn_costs turns) a v = record {
        models = m;
        same_capacity = refl;
        tickets = omega arith;
      } in
      elim (Bool-cases v.closed) [
        | inl is_closed ↦ (a, ground (arith, m.shut, is_closed), b)
        | inr is_open ↦ (a, ground (arith, m.shut, is_open), b)
      ]
  wait_push_batch_refines turns total_count (x ∷ xs) {a} {v} m small = elim (Bool-cases v.closed) [
    | inl is_closed ↦ (a, ground (arith, m.shut, is_closed), ground (arith, m, is_closed))
    | inr is_open ↦
        let (b, e, w) = try_push_batch_refines v m (omega arith) (x ∷ xs) (omega arith) in
        let count = (view_push_batch (capacity a) v (x ∷ xs)).0 in
        let (c, f, w') =
          push_rest_refines turns (drop count (x ∷ xs)) count w.models
            (omega (arith, w.tickets, w.same_capacity)) in
        (
          c,
          ground (arith, e, f, m.shut, is_open, w.same_capacity),
          ground (arith, w', w.same_capacity, w.tickets, is_open),
        )
  ]
