-- ===== src/Adapter/Spec.antt =====
-- What the adapter promises: a bounded queue as a list, oldest element first, that can be closed.
use cpp_mpmc_thread_pool.Base.{
  ℕ, ◌-◌, ◌+◌, ◌≤◌, min, Bool, true, false, ◌≡◌, Option, none, some, List, [], ◌∷◌, ◌++◌, length,
  take, drop, ltb, leb, ◌==◌, if◌then◌else◌,
}
use cpp_mpmc_thread_pool.Base.Words.{add_size}
use cpp_mpmc_thread_pool.Ring.Repr.{Repr}
use cpp_mpmc_thread_pool.Adapter.{
  Adapter, Signal, not_empty_one, not_empty_all, not_full_one, not_full_all, Call, push_call,
  overwrite_call, push_batch_call, pop_batch_call, pop_call, close_call, clear_call, capacity,
}

pub record View {ℓ} (A : Type ℓ) : Type ℓ where
  pub items : List A
  pub discards : ℕ
  pub closed : Bool
  pub signals : List Signal

module _ {ℓ} {A : Type ℓ} where
  unfoldable pub view_overwrite_first : List A → View A → A → Bool × Option A × View A
  view_overwrite_first [] v x = (false, none, v)
  view_overwrite_first (y ∷ ys) v x =
      (true, some y, record v { items = ys ++ x ∷ []; signals = not_empty_one ∷ v.signals })

  unfoldable pub view_close : View A → View A
  view_close v = record v { closed = true; signals = not_full_all ∷ not_empty_all ∷ v.signals }

  unfoldable pub view_clear : View A → View A
  view_clear v = record v { items = []; signals = not_full_all ∷ v.signals }

module _ {ℓ} {A : Type ℓ} (cap : ℕ) where
  abbrev pub has_room : View A → Bool
  has_room v = ltb (length v.items) cap

  unfoldable pub view_push : View A → A → Bool × View A
  view_push v x =
      if v.closed
      then (false, v)
      else if has_room v
      then (
        true,
        record v {
          items = v.items ++ x ∷ [];
          signals = if length v.items == 0 then not_empty_one ∷ v.signals else v.signals;
        },
      )
      else (false, record v { discards = add_size v.discards 1 })

  unfoldable pub view_pop_from : List A → View A → Option A × View A
  view_pop_from [] v = (none, v)
  view_pop_from (x ∷ xs) v = (
    some x,
    record v {
      items = xs;
      signals = if length v.items == cap then not_full_one ∷ v.signals else v.signals;
    },
  )

  unfoldable pub view_pop : View A → Option A × View A
  unfolding view_pop_from
  view_pop v = view_pop_from v.items v

  -- A push that makes room by taking out the oldest item.
  unfoldable pub view_overwrite : View A → A → Bool × Option A × View A
  unfolding view_overwrite_first
  view_overwrite v x =
      if v.closed
      then (false, none, v)
      else if has_room v
      then (true, none, record v { items = v.items ++ x ∷ []; signals = not_empty_one ∷ v.signals })
      else view_overwrite_first v.items v x

  unfoldable pub view_push_batch : View A → List A → ℕ × View A
  view_push_batch v xs =
      let count = min (length xs) (cap - length v.items) in
      if v.closed then (0, v) else (
        count,
        record v {
          items = v.items ++ take (cap - length v.items) xs;
          signals =
              if ltb 0 count
              then (if length v.items == 0 then not_empty_all ∷ v.signals else v.signals)
              else v.signals;
        },
      )

  unfoldable pub view_pop_batch : View A → ℕ → List A × ℕ × View A
  view_pop_batch v n =
      let count = min n (length v.items) in
      (
        take n v.items,
        count,
        record v {
          items = drop n v.items;
          signals =
              if ltb 0 count
              then (if leb (cap - count) (length v.items)
                  then not_full_all ∷ v.signals
                  else v.signals)
              else v.signals;
        },
      )

  unfoldable pub view_step : View A → Call A → View A
  unfolding view_push view_overwrite view_push_batch view_pop_batch view_pop view_close view_clear
  view_step v (push_call x) = (view_push v x).1
  view_step v (overwrite_call x) = (view_overwrite v x).2
  view_step v (push_batch_call xs) = (view_push_batch v xs).1
  view_step v (pop_batch_call n) = (view_pop_batch v n).2
  view_step v pop_call = (view_pop v).1
  view_step v close_call = view_close v
  view_step v clear_call = view_clear v

  unfoldable pub view_steps : View A → List (Call A) → View A
  unfolding view_step
  view_steps v [] = v
  view_steps v (c ∷ cs) = view_steps (view_step v c) cs

abbrev pub new_view {ℓ} : {A : Type ℓ} → View A
new_view = record { items = []; discards = 0; closed = false; signals = [] }

-- The order in which `Clear` visits.
abbrev pub visit {ℓ κ} : {A : Type ℓ} {S : Type κ} → (A → S → S) → List A → S → S
visit visitor [] s = s
visit visitor (x ∷ xs) s = visit visitor xs (visitor x s)

-- How many tickets a call may take.
abbrev pub cost {ℓ} : {A : Type ℓ} → Call A → ℕ
cost (push_call x) = 1
cost (overwrite_call x) = 1
cost (push_batch_call xs) = length xs
cost _ = 0

abbrev pub costs {ℓ} : {A : Type ℓ} → List (Call A) → ℕ
costs [] = 0
costs (c ∷ cs) = cost c + costs cs

-- The adapter stands for the view: its ring holds the items, and it counts them right.
pub record Models {ℓ} {A : Type ℓ} (a : Adapter A) (v : View A) : Type ℓ where
  pub holds : Repr a.queue v.items
  pub counted : a.pending_count ≡ length v.items
  pub discarded : a.discard_counter ≡ v.discards
  pub shut : a.close ≡ v.closed
  pub signalled : a.signals ≡ v.signals

-- `b` is `a` after at most `n` pushes, and stands for `v`.
pub record Becomes {ℓ} {A : Type ℓ} (a : Adapter A) (n : ℕ) (b : Adapter A) (v : View A)
    : Type ℓ where
  pub models : Models b v
  pub same_capacity : capacity b ≡ capacity a
  pub tickets : b.queue.producer_pos ≤ a.queue.producer_pos + n
