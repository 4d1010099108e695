-- ===== src/Adapter/Wait.antt =====
-- The blocking calls of include/mpmc/blocking_queue_adapter.hpp. What the other threads do while a
-- call holds no processor is a list of rounds: the first one runs until the call has its mutex, and
-- each later one until a wait on the condition variable ends. A call that is out of rounds is blocked.
use cpp_mpmc_thread_pool.Base.{Bool, true, false, Option, none, some, List, [], ◌∷◌, if◌then◌else◌}
use cpp_mpmc_thread_pool.Base.Words.{sub_size}
use cpp_mpmc_thread_pool.Ring
use cpp_mpmc_thread_pool.Ring.{Ring, pushed, full, threw}
use cpp_mpmc_thread_pool.Adapter.{
  Adapter, not_empty_one, not_full_one, Call, count_pushed, count_discard, steps,
}

pub data Waited {ℓ} (R : Type ℓ) : Type ℓ where
  returned : R → Waited R
  blocked : Waited R

-- One look at the queue by a producer.
pub data Attempt : Type 0 where
  refused stored no_room : Attempt

-- One look at the queue by a consumer.
pub data PopAttempt {ℓ} (A : Type ℓ) : Type ℓ where
  taken : A → PopAttempt A
  shut : PopAttempt A
  no_item : PopAttempt A

module _ {ℓ} {A : Type ℓ} where
  -- `if (Closed()) return false;`, then a push with its count and notification.
  unfoldable pub attempt_push : Adapter A → A → Option (Attempt × Adapter A)
  attempt_push a x = if a.close then some (refused, a) else elim (Ring.try_push a.queue x) [
    | none ↦ none
    | some (pushed, q) ↦ some (stored, count_pushed a q 1 not_empty_one)
    | some (full, q) ↦ some (no_room, record a { queue = q })
    | some (threw, q) ↦ none
  ]

  -- The loop of `WaitPush` under `push_mutex_`.
  unfoldable pub push_loop : List (List (Call A)) → Adapter A → A → Option (Waited Bool × Adapter A)
  unfolding attempt_push
  push_loop [] a x = elim (attempt_push a x) [
    | none ↦ none
    | some (refused, b) ↦ some (returned false, b)
    | some (stored, b) ↦ some (returned true, b)
    | some (no_room, b) ↦ some (blocked, b)
  ]
  push_loop (round ∷ rounds) a x = elim (attempt_push a x) [
    | none ↦ none
    | some (refused, b) ↦ some (returned false, b)
    | some (stored, b) ↦ some (returned true, b)
    | some (no_room, b) ↦ elim (steps b round) [ none ↦ none | some c ↦ push_loop rounds c x ]
  ]

  -- `WaitPush` and `WaitEmplace`: a first look without the mutex, then the loop.
  unfoldable pub wait_push :
      List (Call A) → List (List (Call A)) → Adapter A → A → Option (Waited Bool × Adapter A)
  unfolding attempt_push push_loop
  wait_push locking rounds a x = elim (attempt_push a x) [
    | none ↦ none
    | some (refused, b) ↦ some (returned false, b)
    | some (stored, b) ↦ some (returned true, b)
    | some (no_room, b) ↦ elim (steps b locking) [ none ↦ none | some c ↦ push_loop rounds c x ]
  ]

  -- `WaitPushFor`: a wait may end by its deadline, which counts as a discard.
  unfoldable pub push_loop_for :
      List (List (Call A) × Bool) → Adapter A → A → Option (Waited Bool × Adapter A)
  unfolding attempt_push
  push_loop_for [] a x = elim (attempt_push a x) [
    | none ↦ none
    | some (refused, b) ↦ some (returned false, b)
    | some (stored, b) ↦ some (returned true, b)
    | some (no_room, b) ↦ some (blocked, b)
  ]
  push_loop_for ((round, timeout) ∷ rounds) a x = elim (attempt_push a x) [
    | none ↦ none
    | some (refused, b) ↦ some (returned false, b)
    | some (stored, b) ↦ some (returned true, b)
    | some (no_room, b) ↦ elim (steps b round) [
      | none ↦ none
      | some c ↦ elim timeout [
        | true ↦ some (returned false, count_discard c c.queue)
        | false ↦ push_loop_for rounds c x
      ]
    ]
  ]

  unfoldable pub wait_push_for :
      List (Call A) → List (List (Call A) × Bool) → Adapter A → A → Option (Waited Bool × Adapter A)
  unfolding attempt_push push_loop_for
  wait_push_for locking rounds a x = elim (attempt_push a x) [
    | none ↦ none
    | some (refused, b) ↦ some (returned false, b)
    | some (stored, b) ↦ some (returned true, b)
    | some (no_room, b) ↦ elim (steps b locking) [ none ↦ none | some c ↦ push_loop_for rounds c x ]
  ]

  -- A blocking consumer notifies the producers after every item.
  abbrev pub count_taken : Adapter A → Ring A → Adapter A
  count_taken a q = record a {
    queue = q;
    pending_count = sub_size a.pending_count 1;
    signals = not_full_one ∷ a.signals;
  }

  -- `while (!queue_.TryPop(out)) { if (Closed()) return false; … }`
  unfoldable pub attempt_pop : Adapter A → Option (PopAttempt A × Adapter A)
  attempt_pop a = elim (Ring.try_pop a.queue) [
    | none ↦ none
    | some (some x, q) ↦ some (taken x, count_taken a q)
    | some (none, q) ↦ some (if a.close then shut else no_item, record a { queue = q })
  ]

  -- The loop of `WaitPop` under `pop_mutex_`. The result is `none` for `false`.
  unfoldable pub pop_loop :
      List (List (Call A)) → Adapter A → Option (Waited (Option A) × Adapter A)
  unfolding attempt_pop
  pop_loop [] a = elim (attempt_pop a) [
    | none ↦ none
    | some (taken x, b) ↦ some (returned (some x), b)
    | some (shut, b) ↦ some (returned none, b)
    | some (no_item, b) ↦ some (blocked, b)
  ]
  pop_loop (round ∷ rounds) a = elim (attempt_pop a) [
    | none ↦ none
    | some (taken x, b) ↦ some (returned (some x), b)
    | some (shut, b) ↦ some (returned none, b)
    | some (no_item, b) ↦ elim (steps b round) [ none ↦ none | some c ↦ pop_loop rounds c ]
  ]

  -- `WaitPop`. The first look does not ask whether the queue is closed.
  unfoldable pub wait_pop :
      List (Call A) → List (List (Call A)) → Adapter A → Option (Waited (Option A) × Adapter A)
  unfolding pop_loop
  wait_pop locking rounds a = elim (Ring.try_pop a.queue) [
    | none ↦ none
    | some (some x, q) ↦ some (returned (some x), count_taken a q)
    | some (none, q) ↦ elim (steps (record a { queue = q }) locking) [
      | none ↦ none
      | some b ↦ pop_loop rounds b
    ]
  ]

  -- `WaitPopFor`: a wait that ends by its deadline returns `false` at once.
  unfoldable pub pop_loop_for :
      List (List (Call A) × Bool) → Adapter A → Option (Waited (Option A) × Adapter A)
  unfolding attempt_pop
  pop_loop_for [] a = elim (attempt_pop a) [
    | none ↦ none
    | some (taken x, b) ↦ some (returned (some x), b)
    | some (shut, b) ↦ some (returned none, b)
    | some (no_item, b) ↦ some (blocked, b)
  ]
  pop_loop_for ((round, timeout) ∷ rounds) a = elim (attempt_pop a) [
    | none ↦ none
    | some (taken x, b) ↦ some (returned (some x), b)
    | some (shut, b) ↦ some (returned none, b)
    | some (no_item, b) ↦ elim (steps b round) [
      | none ↦ none
      | some c ↦ elim timeout [ true ↦ some (returned none, c) | false ↦ pop_loop_for rounds c ]
    ]
  ]

  unfoldable pub wait_pop_for :
      List (Call A)
      → List (List (Call A) × Bool)
      → Adapter A
      → Option (Waited (Option A) × Adapter A)
  unfolding pop_loop_for
  wait_pop_for locking rounds a = elim (Ring.try_pop a.queue) [
    | none ↦ none
    | some (some x, q) ↦ some (returned (some x), count_taken a q)
    | some (none, q) ↦ elim (steps (record a { queue = q }) locking) [
      | none ↦ none
      | some b ↦ pop_loop_for rounds b
    ]
  ]
