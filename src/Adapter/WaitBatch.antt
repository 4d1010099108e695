-- ===== src/Adapter/WaitBatch.antt =====
-- `WaitPushBatch` and `WaitPopBatch` of include/mpmc/blocking_queue_adapter.hpp. For each element
-- that is not part of the first batch, a turn says what the other threads do.
use cpp_mpmc_thread_pool.Base.{
  ℕ, zero, suc, ◌+◌, ◌-◌, Bool, true, false, ◌||◌, Option, none, some, List, [], ◌∷◌, ◌++◌, drop,
  length, ltb, leb, ◌==◌, if◌then◌else◌,
}
use cpp_mpmc_thread_pool.Ring
use cpp_mpmc_thread_pool.Ring.{pushed, full, threw}
use cpp_mpmc_thread_pool.Adapter.{
  Adapter, not_empty_one, Call, count_pushed, steps, try_push_batch, try_pop_batch,
}
use cpp_mpmc_thread_pool.Adapter.Wait.{Waited, returned, blocked, push_loop, wait_pop}

-- The calls of other threads before the first look, before the call has its mutex, and in each wait.
pub record Turn {ℓ} (A : Type ℓ) : Type ℓ where
  pub before : List (Call A)
  pub locking : List (Call A)
  pub rounds : List (List (Call A))

-- `min_count` behind its correction.
abbrev pub least : ℕ → ℕ → ℕ
least max_count min_count = if (min_count == 0) || ltb max_count min_count then 1 else min_count

module _ {ℓ} {A : Type ℓ} where
  -- `try_push_elem()` without the mutex: nothing asks whether the queue is closed.
  unfoldable pub attempt_element : Adapter A → A → Option (Bool × Adapter A)
  attempt_element a x = elim (Ring.try_push a.queue x) [
    | none ↦ none
    | some (pushed, q) ↦ some (true, count_pushed a q 1 not_empty_one)
    | some (full, q) ↦ some (false, record a { queue = q })
    | some (threw, q) ↦ none
  ]

  -- One element, with the loop under `push_mutex_` where it does not go in at once.
  unfoldable pub push_element : Turn A → Adapter A → A → Option (Waited Bool × Adapter A)
  unfolding attempt_element push_loop
  push_element t a x = elim (steps a t.before) [
    | none ↦ none
    | some b ↦ elim (attempt_element b x) [
      | none ↦ none
      | some (true, c) ↦ some (returned true, c)
      | some (false, c) ↦ elim (steps c t.locking) [ none ↦ none | some d ↦ push_loop t.rounds d x ]
    ]
  ]

  -- The loop over the elements that are left, with `n` pushed.
  unfoldable pub push_rest : List (Turn A) → Adapter A → List A → ℕ → Option (Waited ℕ × Adapter A)
  unfolding push_element
  push_rest turns a [] n = some (returned n, a)
  push_rest [] a (x ∷ xs) n = some (blocked, a)
  push_rest (t ∷ turns) a (x ∷ xs) n = elim (push_element t a x) [
    | none ↦ none
    | some (returned true, b) ↦ push_rest turns b xs (n + 1)
    | some (returned false, b) ↦ some (returned n, b)
    | some (blocked, b) ↦ some (blocked, b)
  ]

  -- With `total_count`, what the caller's variable holds: a closed queue leaves it as it was.
  unfoldable pub wait_push_batch :
      List (Turn A) → Adapter A → (total_count : ℕ) → List A → Option (Waited ℕ × ℕ × Adapter A)
  unfolding push_rest try_push_batch
  wait_push_batch turns a total_count [] =
      if a.close then some (returned 0, total_count, a) else some (returned 0, 0, a)
  wait_push_batch turns a total_count (x ∷ xs) =
      if a.close then some (returned 0, total_count, a) else elim (try_push_batch a (x ∷ xs)) [
        | none ↦ none
        | some (count, b) ↦ elim (push_rest turns b (drop count (x ∷ xs)) count) [
          | none ↦ none
          | some (r, c) ↦ some (r, length (x ∷ xs), c)
        ]
      ]

  -- `while (popped < min_count)`, with `k` items missing and `out` written so far; `true` where it
  -- runs to its end, `false` where a `WaitPop` returns without an item.
  unfoldable pub pop_missing :
      ℕ → List (Turn A) → Adapter A → List A → Option (Waited Bool × List A × Adapter A)
  unfolding wait_pop
  pop_missing zero turns a out = some (returned true, out, a)
  pop_missing (suc k) [] a out = some (blocked, out, a)
  pop_missing (suc k) (t ∷ turns) a out = elim (steps a t.before) [
    | none ↦ none
    | some b ↦ elim (wait_pop t.locking t.rounds b) [
      | none ↦ none
      | some (returned (some x), c) ↦ pop_missing k turns c (out ++ x ∷ [])
      | some (returned none, c) ↦ some (returned false, out, c)
      | some (blocked, c) ↦ some (blocked, out, c)
    ]
  ]

  -- The items that are written; their number is what the call returns. A loop that runs to its end
  -- leaves `popped` at `min_count`.
  unfoldable pub wait_pop_batch :
      List (Turn A) → Adapter A → (max_count min_count : ℕ) → Option (Waited (List A) × Adapter A)
  unfolding try_pop_batch pop_missing
  wait_pop_batch turns a max_count min_count = elim (try_pop_batch a max_count) [
    | none ↦ none
    | some (out, popped, b) ↦
        if leb (least max_count min_count) popped || (popped == max_count)
        then some (returned out, b)
        else elim (pop_missing (least max_count min_count - popped) turns b out) [
          | none ↦ none
          | some (blocked, out', c) ↦ some (blocked, c)
          | some (returned false, out', c) ↦ some (returned out', c)
          | some (returned true, out', c) ↦
              elim (try_pop_batch c (max_count - least max_count min_count)) [
                | none ↦ none
                | some (more, count, d) ↦ some (returned (out' ++ more), d)
              ]
        ]
  ]
