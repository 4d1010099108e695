-- ===== src/Adapter/Deadline.antt =====
-- `WaitPushFor` and `WaitPopFor` of include/mpmc/blocking_queue_adapter.hpp: the specification, by the
-- queue that they see each time they look, and the refinement. A round carries whether its wait ends
-- by the deadline.
use cpp_mpmc_thread_pool.Base.{
  ℕ, suc, ◌+◌, ◌<◌, ◌^◌, ◌≡◌, ap, inl, inr, Bool, true, false, Option, none, some, List, [], ◌∷◌,
  arith, Bool-cases, if◌then◌else◌,
}
use cpp_mpmc_thread_pool.Base.Words.{add_size}
use cpp_mpmc_thread_pool.Adapter.{Adapter, Call, capacity, count_discard}
use cpp_mpmc_thread_pool.Adapter.Spec.{
  View, Models, Becomes, has_room, view_push, view_steps, costs,
}
use cpp_mpmc_thread_pool.Adapter.Steps.{steps_refines}
use cpp_mpmc_thread_pool.Adapter.Wait.{
  Waited, returned, blocked, push_loop_for, wait_push_for, attempt_pop, pop_loop_for, wait_pop_for,
  count_taken,
}
use cpp_mpmc_thread_pool.Adapter.WaitSpec.{view_look, view_first_look}
use cpp_mpmc_thread_pool.Adapter.Waiting.{
  attempt_push-closed, attempt_push-room, attempt_push-full, took, missed, List-cases,
}

abbrev pub timed_costs {ℓ} : {A : Type ℓ} → List (List (Call A) × Bool) → ℕ
timed_costs [] = 0
timed_costs ((r, t) ∷ rs) = costs r + timed_costs rs

module _ {ℓ} {A : Type ℓ} where
  -- A push that has run into its deadline counts as a discard.
  abbrev pub give_up : View A → Waited Bool × View A
  give_up v = (returned false, record v { discards = add_size v.discards 1 })

  module _ (most : ℕ) where
    -- The producer's looks. The last one before the deadline counts: there is none behind it.
    unfoldable pub view_wait_push_for :
        List (List (Call A) × Bool) → View A → A → Waited Bool × View A
    unfolding view_push view_steps
    view_wait_push_for [] v x =
        if v.closed
        then (returned false, v)
        else if has_room most v
        then (returned true, (view_push most v x).1)
        else (blocked, v)
    view_wait_push_for ((round, timeout) ∷ rounds) v x =
        let w = view_steps most v round in
        let later = view_wait_push_for rounds w x in
        if v.closed
        then (returned false, v)
        else if has_room most v
        then (returned true, (view_push most v x).1)
        else if timeout
        then give_up w
        else later

    -- The consumer's looks.
    unfoldable pub view_wait_pop_for :
        List (List (Call A) × Bool) → View A → Waited (Option A) × View A
    unfolding view_look view_steps
    view_wait_pop_for [] v = view_look v.items v (blocked, v)
    view_wait_pop_for ((round, timeout) ∷ rounds) v =
        let w = view_steps most v round in
        let later = view_wait_pop_for rounds w in
        view_look v.items v (if timeout then (returned none, w) else later)

  discarded_once :
      {a c : Adapter A} {v : View A} {n : ℕ}
      → Becomes a n c v
      → Becomes a n (count_discard c c.queue) (record v { discards = add_size v.discards 1 })
  discarded_once {a} {c} {v} w =
      let m = w.models in
      record {
        models = record {
          holds = m.holds;
          counted = m.counted;
          discarded = ap (λ n. add_size n 1) m.discarded;
          shut = m.shut;
          signalled = m.signalled;
        };
        same_capacity = w.same_capacity;
        tickets = w.tickets;
      }

  push_loop_for_refines :
      (rounds : List (List (Call A) × Bool)) {a : Adapter A} {v : View A} (x : A)
      → Models a v
      → a.queue.producer_pos + suc (timed_costs rounds) + capacity a < 2 ^ 63
      → let (r, w) = view_wait_push_for (capacity a) rounds v x in
        (b : Adapter A) × (push_loop_for rounds a x ≡ some (r, b))
        × Becomes a (suc (timed_costs rounds)) b w
  unfolding push_loop_for view_wait_push_for
  push_loop_for_refines [] {a} {v} x m small = elim (Bool-cases v.closed) [
    | inl is_closed ↦
        (a, ground (arith, attempt_push-closed m (omega arith) x is_closed), ground (arith, m))
    | inr is_open ↦ elim (Bool-cases (has_room (capacity a) v)) [
      | inl room ↦
          let (b, e, w) = attempt_push-room m (omega arith) x is_open room in
          (b, ground (arith, e), ground (arith, w))
      | inr full_up ↦ (
        a,
        ground (arith, attempt_push-full m (omega arith) x is_open full_up),
        ground (arith, m),
      )
    ]
  ]
  push_loop_for_refines ((round, timeout) ∷ rounds) {a} {v} x m small = elim (Bool-cases v.closed) [
    | inl is_closed ↦
        (a, ground (arith, attempt_push-closed m (omega arith) x is_closed), ground (arith, m))
    | inr is_open ↦ elim (Bool-cases (has_room (capacity a) v)) [
      | inl room ↦
          let (b, e, w) = attempt_push-room m (omega arith) x is_open room in
          (b, ground (arith, e), ground (arith, w))
      | inr full_up ↦
          let e = attempt_push-full m (omega arith) x is_open full_up in
          let (b, f, w) = steps_refines round m (omega arith) in
          let (c, g, w') =
            push_loop_for_refines rounds x w.models (omega (arith, w.tickets, w.same_capacity)) in
          elim (Bool-cases timeout) [
            | inl late ↦
                let u = discarded_once w in
                (count_discard b b.queue, ground (arith, e, f), ground (arith, u))
            | inr early ↦ (
              c,
              ground (arith, e, f, g, w.same_capacity),
              ground (arith, w', w.same_capacity, w.tickets),
            )
          ]
    ]
  ]

  -- Whatever calls the other threads make before `WaitPushFor` has its mutex and during each of
  -- its waits, and whichever wait ends by the deadline, it does what the specification says of the
  -- queues it sees: refused by a closed queue, stored at the end of an open queue with room, given
  -- up at the deadline without another look and counted as one discard, and otherwise waiting
  -- again, as long as the calls keep the positions below 2^63.
  pub wait_push_for_refines :
      (locking : List (Call A)) (rounds : List (List (Call A) × Bool)) {a : Adapter A} {v : View A}
      (x : A)
      → Models a v
      → a.queue.producer_pos + suc (costs locking + timed_costs rounds) + capacity a < 2 ^ 63
      → let (r, w) = view_wait_push_for (capacity a) ((locking, false) ∷ rounds) v x in
        (b : Adapter A) × (wait_push_for locking rounds a x ≡ some (r, b))
        × Becomes a (suc (costs locking + timed_costs rounds)) b w
  unfolding wait_push_for push_loop_for
  wait_push_for_refines locking rounds {a} {v} x m small =
      push_loop_for_refines ((locking, false) ∷ rounds) x m small

  pop_loop_for_refines :
      (rounds : List (List (Call A) × Bool)) {a : Adapter A} {v : View A}
      → Models a v
      → a.queue.producer_pos + timed_costs rounds + capacity a < 2 ^ 63
      → let (r, w) = view_wait_pop_for (capacity a) rounds v in
        (b : Adapter A) × (pop_loop_for rounds a ≡ some (r, b)) × Becomes a (timed_costs rounds) b w
  unfolding pop_loop_for attempt_pop view_wait_pop_for
  pop_loop_for_refines [] {a} {v} m small = elim (List-cases v.items) [
    | inr (x, xs, e) ↦
        let (q, h, w) = took v m (omega arith) x xs e in
        (count_taken a q, ground (arith, h, e), ground (arith, w, e))
    | inl e ↦
        let h = missed v m (omega arith) e in
        (a, ground (arith, h, e, m.shut), ground (arith, m, e))
  ]
  pop_loop_for_refines ((round, timeout) ∷ rounds) {a} {v} m small = elim (List-cases v.items) [
    | inr (x, xs, e) ↦
        let (q, h, w) = took v m (omega arith) x xs e in
        (count_taken a q, ground (arith, h, e), ground (arith, w, e))
    | inl e ↦ elim (Bool-cases v.closed) [
      | inl is_closed ↦
          let h = missed v m (omega arith) e in
          (a, ground (arith, h, e, m.shut), ground (arith, m, e))
      | inr is_open ↦
          let h = missed v m (omega arith) e in
          let (b, f, w) = steps_refines round m (omega arith) in
          let (c, g, w') =
            pop_loop_for_refines rounds w.models (omega (arith, w.tickets, w.same_capacity)) in
          elim (Bool-cases timeout) [
            | inl late ↦ (b, ground (arith, h, e, f, m.shut), ground (arith, w, e))
            | inr early ↦ (
              c,
              ground (arith, h, e, f, g, m.shut, w.same_capacity),
              ground (arith, w', e, w.same_capacity, w.tickets),
            )
          ]
    ]
  ]

  -- `WaitPopFor` does what the specification says of the queues it sees.
  wait_pop_for_refines :
      (locking : List (Call A)) (rounds : List (List (Call A) × Bool)) {a : Adapter A} {v : View A}
      → Models a v
      → a.queue.producer_pos + costs locking + timed_costs rounds + capacity a < 2 ^ 63
      → let (r, w) =
          view_first_look v.items v
            (view_wait_pop_for (capacity a) rounds (view_steps (capacity a) v locking)) in
        (b : Adapter A) × (wait_pop_for locking rounds a ≡ some (r, b))
        × Becomes a (costs locking + timed_costs rounds) b w
  unfolding wait_pop_for view_first_look
  wait_pop_for_refines locking rounds {a} {v} m small = elim (List-cases v.items) [
    | inr (x, xs, e) ↦
        let (q, h, w) = took v m (omega arith) x xs e in
        (count_taken a q, ground (arith, h, e), ground (arith, w, e))
    | inl e ↦
        let h = missed v m (omega arith) e in
        let (b, f, w) = steps_refines locking m (omega arith) in
        let (c, g, w') =
          pop_loop_for_refines rounds w.models (omega (arith, w.tickets, w.same_capacity)) in
        (
          c,
          ground (arith, h, e, f, g, w.same_capacity),
          ground (arith, w', e, w.same_capacity, w.tickets),
        )
  ]
