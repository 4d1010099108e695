-- ===== src/Ring.antt =====
-- include/mpmc/bounded_circular_queue.hpp: the bounded ring with a sequence number in each cell.
-- An operation runs with no other thread between its steps. `none` is a read of `buffer_` out of
-- its bounds, a move from a cell with no object, or a retry loop that is out of fuel.
pub mod Window
pub mod Repr
pub mod Push
pub mod Pop
pub mod Fifo
pub mod Batch
pub mod Capacity
pub mod Throwing
pub mod Concurrent
mod Tests
use cpp_mpmc_thread_pool.Base.{
  ℕ, zero, suc, ◌+◌, ◌/◌, ◌^◌, bit_and, bit_or, Bool, true, false, Option, none, some, List, [],
  ◌∷◌, ◌++◌, ltb, leb, ◌==◌, if◌then◌else◌, get_elem?, set,
}
use cpp_mpmc_thread_pool.Base.Words.{add_size, sub_size, is_zero, is_negative, ptr_diff}

-- `Cell`; `storage` is the object that lives in `storage_`, if one does.
pub record Cell {ℓ} (A : Type ℓ) : Type ℓ where
  pub seq : ℕ
  pub storage : Option A

pub record Ring {ℓ} (A : Type ℓ) : Type ℓ where
  pub capacity : ℕ
  pub mask : ℕ
  pub buffer : List (Cell A)
  pub producer_pos : ℕ
  pub consumer_pos : ℕ

-- What `DoPush` returns, or that the constructor of the element threw.
pub data PushStatus : Type 0 where
  pushed full threw : PushStatus

-- What `TryPopConsume` does: the state that the callback leaves, `false`, or an exception of it.
pub data Consumed {ℓ} (S : Type ℓ) : Type ℓ where
  consumed : S → Consumed S
  empty : Consumed S
  callback_threw : Consumed S

-- The values of `i` in the loop of `RoundUpToPow2`, for a `size_type` of 64 bits.
abbrev pub shifts : List ℕ
shifts = 1 ∷ 2 ∷ 4 ∷ 8 ∷ 16 ∷ 32 ∷ []

-- n |= (n >> i), for each `i`
pub smear : List ℕ → ℕ → ℕ
smear [] n = n
smear (i ∷ is) n = smear is (bit_or n (n / 2 ^ i))

pub round_up_to_pow2 : ℕ → ℕ
unfolding smear
round_up_to_pow2 n = if ltb n 2 then 2 else add_size (smear shifts (sub_size n 1)) 1

-- How often an operation may load its position. With no other thread once is enough.
abbrev pub attempts : ℕ
attempts = 2

module _ {ℓ} {A : Type ℓ} where
  -- The cells `i`, `i + 1`, … of a new buffer, `n` of them.
  pub new_cells : ℕ → ℕ → List (Cell A)
  new_cells i zero = []
  new_cells i (suc n) = record { seq = i; storage = none } ∷ new_cells (suc i) n

  pub with_capacity : ℕ → Ring A
  unfolding new_cells
  with_capacity adjusted = record {
    capacity = adjusted;
    mask = sub_size adjusted 1;
    buffer = new_cells 0 adjusted;
    producer_pos = 0;
    consumer_pos = 0;
  }

  unfoldable pub make : ℕ → Ring A
  unfolding with_capacity round_up_to_pow2
  make capacity = with_capacity (round_up_to_pow2 capacity)

  abbrev pub cell_at : Ring A → ℕ → Option (Cell A)
  cell_at r at = get_elem? r.buffer (bit_and at r.mask)

  abbrev pub put_cell : Ring A → ℕ → Cell A → List (Cell A)
  put_cell r at c = set r.buffer (bit_and at r.mask) c

  -- The claimed cell. `none` is a constructor that throws: the ticket stays taken.
  pub claim_push : Ring A → Cell A → Option A → ℕ → PushStatus × Ring A
  claim_push r cell none at = (
    threw,
    record r { buffer = put_cell r at (record cell { seq = at }); producer_pos = add_size at 1 },
  )
  claim_push r cell (some x) at = (
    pushed,
    record r {
      buffer = put_cell r at (record { seq = add_size at 1; storage = some x });
      producer_pos = add_size at 1;
    },
  )

  pub do_push : ℕ → Ring A → Option A → ℕ → Option (PushStatus × Ring A)
  unfolding claim_push
  do_push zero r f at = none
  do_push (suc fuel) r f at =
      let reload = do_push fuel r f r.producer_pos in
      elim (cell_at r at) [
        | none ↦ none
        | some cell ↦
            let diff = ptr_diff cell.seq at in
            if is_zero diff
            then (if r.producer_pos == at then some (claim_push r cell f at) else reload)
            else if is_negative diff
            then some (full, r)
            else reload
      ]

  -- `TryPushWith` and `TryEmplace`; `TryPush` constructs from its argument.
  unfoldable pub try_push_with : Ring A → Option A → Option (PushStatus × Ring A)
  unfolding do_push
  try_push_with r f = do_push attempts r f r.producer_pos

  unfoldable pub try_push : Ring A → A → Option (PushStatus × Ring A)
  unfolding try_push_with
  try_push r x = try_push_with r (some x)

  -- The object leaves the claimed cell, which is free for the next round.
  pub release_cell : Ring A → ℕ → Ring A
  release_cell r at = record r {
    buffer = put_cell r at (record { seq = add_size at r.capacity; storage = none });
    consumer_pos = add_size at 1;
  }

  -- Shared by `TryPop` and `TryPopConsume`: the claim of a consumable cell, and what is done there.
  pub do_pop {κ} : {B : Type κ} → ℕ → Ring A → (A → Ring A → ℕ → B) → B → ℕ → Option B
  do_pop zero r take_out missing at = none
  do_pop (suc fuel) r take_out missing at =
      let reload = do_pop fuel r take_out missing r.consumer_pos in
      elim (cell_at r at) [
        | none ↦ none
        | some cell ↦
            let diff = ptr_diff cell.seq (add_size at 1) in
            if is_zero diff
            then (if r.consumer_pos == at
                then (elim cell.storage [ none ↦ none | some x ↦ some (take_out x r at) ])
                else reload)
            else if is_negative diff
            then some missing
            else reload
      ]

  pub take_element : A → Ring A → ℕ → Option A × Ring A
  unfolding release_cell
  take_element x r at = (some x, release_cell r at)

  -- The element that goes to `out`, or `none` for `false`.
  unfoldable pub try_pop : Ring A → Option (Option A × Ring A)
  unfolding do_pop take_element
  try_pop r = do_pop attempts r take_element (none, r) r.consumer_pos

  -- The callback acts on a state and may throw (`none`): then the cell is not released.
  pub run_callback {κ} :
      {S : Type κ} → (A → S → Option S) → S → A → Ring A → ℕ → Consumed S × Ring A
  unfolding release_cell
  run_callback callback s x r at = elim (callback x s) [
    | none ↦ (callback_threw, record r { consumer_pos = add_size at 1 })
    | some s' ↦ (consumed s', release_cell r at)
  ]

  unfoldable pub try_pop_consume {κ} :
      {S : Type κ} → Ring A → (A → S → Option S) → S → Option (Consumed S × Ring A)
  unfolding do_pop run_callback
  try_pop_consume r callback s =
      do_pop attempts r (run_callback callback s) (empty, r) r.consumer_pos

  unfoldable pub approx_size : Ring A → ℕ
  approx_size r = sub_size r.producer_pos r.consumer_pos

  unfoldable pub is_empty : Ring A → Bool
  unfolding approx_size
  is_empty r = approx_size r == 0

  unfoldable pub is_full : Ring A → Bool
  unfolding approx_size
  is_full r = leb r.capacity (approx_size r)

  -- `TryFront`: the outer `none` is a fault, the inner one `false`.
  unfoldable pub try_front : Ring A → Option (Option A)
  try_front r = elim (cell_at r r.consumer_pos) [
    | none ↦ none
    | some cell ↦
        if is_zero (ptr_diff cell.seq (add_size r.consumer_pos 1))
        then (elim cell.storage [ none ↦ none | some x ↦ some (some x) ])
        else some none
  ]

  -- `TryPushBatch` with `count` elements pushed so far. Moving an element does not throw.
  pub push_batch_from : Ring A → List A → ℕ → Option (ℕ × Ring A)
  unfolding try_push
  push_batch_from r [] count = some (count, r)
  push_batch_from r (x ∷ xs) count = elim (try_push r x) [
    | none ↦ none
    | some (pushed, r') ↦ push_batch_from r' xs (count + 1)
    | some (_, r') ↦ some (count, r')
  ]

  unfoldable pub try_push_batch : Ring A → List A → Option (ℕ × Ring A)
  unfolding push_batch_from
  try_push_batch r xs = push_batch_from r xs 0

  -- `TryPopBatch`: `n` rounds left; `out` is what has been written to the iterator.
  pub pop_batch_from : ℕ → Ring A → List A → ℕ → Option (List A × ℕ × Ring A)
  unfolding try_pop
  pop_batch_from zero r out count = some (out, count, r)
  pop_batch_from (suc n) r out count = elim (try_pop r) [
    | none ↦ none
    | some (none, r') ↦ some (out, count, r')
    | some (some x, r') ↦ pop_batch_from n r' (out ++ x ∷ []) (count + 1)
  ]

  -- `TryConsumeBatch`. The state is `none` if the callback threw.
  pub consume_batch_from {κ} :
      {S : Type κ} → ℕ → Ring A → (A → S → Option S) → S → ℕ → Option (Option S × ℕ × Ring A)
  unfolding try_pop_consume
  consume_batch_from zero r callback s count = some (some s, count, r)
  consume_batch_from (suc n) r callback s count = elim (try_pop_consume r callback s) [
    | none ↦ none
    | some (consumed s', r') ↦ consume_batch_from n r' callback s' (count + 1)
    | some (empty, r') ↦ some (some s, count, r')
    | some (callback_threw, r') ↦ some (none, count, r')
  ]

  unfoldable pub try_consume_batch {κ} :
      {S : Type κ} → Ring A → (A → S → Option S) → S → ℕ → Option (Option S × ℕ × Ring A)
  unfolding consume_batch_from
  try_consume_batch r callback s max_count = consume_batch_from max_count r callback s 0

  unfoldable pub try_pop_batch : Ring A → ℕ → Option (List A × ℕ × Ring A)
  unfolding pop_batch_from
  try_pop_batch r max_count = pop_batch_from max_count r [] 0
