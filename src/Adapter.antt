-- ===== src/Adapter.antt =====
-- include/mpmc/blocking_queue_adapter.hpp: the ring with a count of its items, blocking calls and a
-- close flag. A call that does not block runs with no other thread between its steps; `none` is a
-- fault of the ring. Where a call blocks, the other threads' calls are an argument.
pub mod Spec
pub mod Refine
pub mod Steps
pub mod Wait
pub mod WaitSpec
pub mod Waiting
pub mod Sleep
pub mod Deadline
pub mod WaitBatch
pub mod WaitBatchSpec
pub mod WaitBatching
pub mod WaitBatchPop
pub mod WaitBatchSize
mod BatchTests
mod Tests
use cpp_mpmc_thread_pool.Base.{
  ℕ, zero, suc, ◌+◌, ◌-◌, Bool, true, false, ◌&&◌, Option, none, some, List, [], ◌∷◌, ltb, leb,
  ◌==◌, if◌then◌else◌,
}
use cpp_mpmc_thread_pool.Base.Words.{add_size, sub_size}
use cpp_mpmc_thread_pool.Ring
use cpp_mpmc_thread_pool.Ring.{Ring, pushed, full, threw, consumed, empty, callback_threw}

-- The calls of `notify_one` and `notify_all` on the two condition variables.
pub data Signal : Type 0 where
  not_empty_one not_empty_all not_full_one not_full_all : Signal

-- `signals` lists the notifications so far, the last one first.
pub record Adapter {ℓ} (A : Type ℓ) : Type ℓ where
  pub queue : Ring A
  pub discard_counter : ℕ
  pub pending_count : ℕ
  pub close : Bool
  pub signals : List Signal

module _ {ℓ} {A : Type ℓ} where
  unfoldable pub make : ℕ → Adapter A
  make capacity = record {
    queue = Ring.make capacity;
    discard_counter = 0;
    pending_count = 0;
    close = false;
    signals = [];
  }

  abbrev pub capacity : Adapter A → ℕ
  capacity a = a.queue.capacity

  -- `pending_count_.fetch_add(n)`, and the notification on the transition from empty.
  abbrev pub count_pushed : Adapter A → Ring A → ℕ → Signal → Adapter A
  count_pushed a q n signal = record a {
    queue = q;
    pending_count = add_size a.pending_count n;
    signals = if a.pending_count == 0 then signal ∷ a.signals else a.signals;
  }

  -- A failed push of the calls that do not block.
  abbrev pub count_discard : Adapter A → Ring A → Adapter A
  count_discard a q = record a { queue = q; discard_counter = add_size a.discard_counter 1 }

  -- `TryPush` and `TryEmplace`. Construction from the argument does not throw.
  unfoldable pub try_push : Adapter A → A → Option (Bool × Adapter A)
  try_push a x = if a.close then some (false, a) else elim (Ring.try_push a.queue x) [
    | none ↦ none
    | some (pushed, q) ↦ some (true, count_pushed a q 1 not_empty_one)
    | some (full, q) ↦ some (false, count_discard a q)
    | some (threw, q) ↦ none
  ]

  -- `TryPop`: the element, or `none` for `false`.
  unfoldable pub try_pop : Adapter A → Option (Option A × Adapter A)
  try_pop a = elim (Ring.try_pop a.queue) [
    | none ↦ none
    | some (none, q) ↦ some (none, record a { queue = q })
    | some (some x, q) ↦ some (
      some x,
      record a {
        queue = q;
        pending_count = sub_size a.pending_count 1;
        signals = if a.pending_count == capacity a then not_full_one ∷ a.signals else a.signals;
      },
    )
  ]

  -- What follows a successful `try_push_hold` of `OverwritePush`.
  abbrev pub count_overwriting : Adapter A → Ring A → Adapter A
  count_overwriting a q = record a {
    queue = q;
    pending_count = add_size a.pending_count 1;
    signals = not_empty_one ∷ a.signals;
  }

  -- The slow path of `OverwritePush`, under its lock: what it returns, and `*overwritten`.
  unfoldable pub overwrite_oldest : Adapter A → A → Option (Bool × Option A × Adapter A)
  overwrite_oldest a x =
      if a.close
      then some (false, none, a)
      else elim (Ring.try_pop_consume a.queue (λ value tmp. some (some value)) none) [
        | none ↦ none
        | some (empty, q) ↦ some (false, none, record a { queue = q })
        | some (callback_threw, q) ↦ none
        | some (consumed tmp, q) ↦
            let popped = record a { queue = q; pending_count = sub_size a.pending_count 1 } in
            elim (Ring.try_push q x) [
              | none ↦ none
              | some (pushed, q') ↦ some (true, tmp, count_overwriting popped q')
              | some (full, q') ↦
                  some
                    (false, tmp, record popped { queue = q'; signals = not_empty_one ∷ a.signals })
              | some (threw, q') ↦ none
            ]
      ]

  -- `OverwritePush`.
  unfoldable pub overwrite_push : Adapter A → A → Option (Bool × Option A × Adapter A)
  unfolding overwrite_oldest
  overwrite_push a x = if a.close then some (false, none, a) else elim (Ring.try_push a.queue x) [
    | none ↦ none
    | some (pushed, q) ↦ some (true, none, count_overwriting a q)
    | some (full, q) ↦ overwrite_oldest (record a { queue = q }) x
    | some (threw, q) ↦ none
  ]

  unfoldable pub discard_count : Adapter A → ℕ
  discard_count a = a.discard_counter

  unfoldable pub reset_discard_counter : Adapter A → Adapter A
  reset_discard_counter a = record a { discard_counter = 0 }

  unfoldable pub close_queue : Adapter A → Adapter A
  close_queue a = record a { close = true; signals = not_full_all ∷ not_empty_all ∷ a.signals }

  unfoldable pub closed : Adapter A → Bool
  closed a = a.close

  unfoldable pub size : Adapter A → ℕ
  size a = a.pending_count

  -- `while (queue_.TryPop(tmp))` with a visitor, whose exceptions are caught. `none` if the fuel runs
  -- out before the queue.
  unfoldable pub drain {κ} : {S : Type κ} → ℕ → Ring A → (A → S → S) → S → Option (S × Ring A)
  drain zero q visitor s = none
  drain (suc fuel) q visitor s = elim (Ring.try_pop q) [
    | none ↦ none
    | some (none, q') ↦ some (s, q')
    | some (some x, q') ↦ drain fuel q' visitor (visitor x s)
  ]

  -- `Clear(visitor)`; `Clear()` has a visitor that does nothing.
  unfoldable pub clear {κ} : {S : Type κ} → Adapter A → (A → S → S) → S → Option (S × Adapter A)
  unfolding drain
  clear a visitor s = elim (drain (suc (capacity a)) a.queue visitor s) [
    | none ↦ none
    | some (s', q) ↦
        some (s', record a { queue = q; pending_count = 0; signals = not_full_all ∷ a.signals })
  ]

  unfoldable pub try_push_batch : Adapter A → List A → Option (ℕ × Adapter A)
  try_push_batch a xs = if a.close then some (0, a) else elim (Ring.try_push_batch a.queue xs) [
    | none ↦ none
    | some (count, q) ↦ some (
      count,
      if ltb 0 count then count_pushed a q count not_empty_all else record a { queue = q },
    )
  ]

  -- `fetch_sub(count)`, and the notification of `TryPopBatch` and `TryConsumeBatch`.
  abbrev pub count_popped : Adapter A → Ring A → ℕ → Adapter A
  count_popped a q count =
      if ltb 0 count
      then record a {
        queue = q;
        pending_count = sub_size a.pending_count count;
        signals =
            if leb (sub_size (capacity a) count) a.pending_count && leb a.pending_count (capacity a)
            then not_full_all ∷ a.signals
            else a.signals;
      }
      else record a { queue = q }

  unfoldable pub try_pop_batch : Adapter A → ℕ → Option (List A × ℕ × Adapter A)
  try_pop_batch a max_count = elim (Ring.try_pop_batch a.queue max_count) [
    | none ↦ none
    | some (out, count, q) ↦ some (out, count, count_popped a q count)
  ]

  -- `TryConsumeBatch`. An exception of the callback leaves the count as it is.
  unfoldable pub try_consume_batch {κ} :
      {S : Type κ} → Adapter A → (A → S → Option S) → S → ℕ → Option (Option S × ℕ × Adapter A)
  try_consume_batch a callback s max_count =
      elim (Ring.try_consume_batch a.queue callback s max_count) [
        | none ↦ none
        | some (none, count, q) ↦ some (none, count, record a { queue = q })
        | some (some s', count, q) ↦ some (some s', count, count_popped a q count)
      ]

-- A call that does not block.
pub data Call {ℓ} (A : Type ℓ) : Type ℓ where
  push_call overwrite_call : A → Call A
  push_batch_call : List A → Call A
  pop_batch_call : ℕ → Call A
  pop_call close_call clear_call : Call A

abbrev pub forget {ℓ κ} : {A : Type ℓ} {B : Type κ} → Option (B × Adapter A) → Option (Adapter A)
forget none = none
forget (some (b, a)) = some a

abbrev pub forget_both {ℓ κ μ} :
    {A : Type ℓ} {B : Type κ} {C : Type μ} → Option (B × C × Adapter A) → Option (Adapter A)
forget_both none = none
forget_both (some (b, c, a)) = some a

module _ {ℓ} {A : Type ℓ} where
  unfoldable pub step : Adapter A → Call A → Option (Adapter A)
  step a (push_call x) = forget (try_push a x)
  step a (overwrite_call x) = forget_both (overwrite_push a x)
  step a (push_batch_call xs) = forget (try_push_batch a xs)
  step a (pop_batch_call n) = forget_both (try_pop_batch a n)
  step a pop_call = forget (try_pop a)
  step a close_call = some (close_queue a)
  step a clear_call = forget (clear {S = Unit {0}} a (λ _ s. s) tt)

  unfoldable pub steps : Adapter A → List (Call A) → Option (Adapter A)
  steps a [] = some a
  steps a (c ∷ cs) = elim (step a c) [ none ↦ none | some a' ↦ steps a' cs ]
