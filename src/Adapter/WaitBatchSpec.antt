-- ===== src/Adapter/WaitBatchSpec.antt =====
-- What the blocking batch calls promise.
use cpp_mpmc_thread_pool.Base.{
  ℕ, zero, suc, ◌+◌, ◌-◌, Bool, true, false, ◌||◌, none, some, List, [], ◌∷◌, ◌++◌, length, drop,
  leb, ◌==◌, if◌then◌else◌,
}
use cpp_mpmc_thread_pool.Adapter.{not_empty_one}
use cpp_mpmc_thread_pool.Adapter.Spec.{
  View, has_room, view_push_batch, view_pop_batch, view_steps, costs,
}
use cpp_mpmc_thread_pool.Adapter.Wait.{Waited, returned, blocked}
use cpp_mpmc_thread_pool.Adapter.WaitBatch.{Turn, least}
use cpp_mpmc_thread_pool.Adapter.WaitSpec.{
  view_wait_push, view_first_look, view_wait_pop, round_costs,
}

module _ {ℓ} {A : Type ℓ} where
  -- An item at the end, also of a closed queue.
  abbrev pub view_append : View A → A → View A
  view_append v x = record v {
    items = v.items ++ x ∷ [];
    signals = if length v.items == 0 then not_empty_one ∷ v.signals else v.signals;
  }

  -- How many tickets a turn may take.
  abbrev pub turn_cost : Turn A → ℕ
  turn_cost t = suc (costs t.before + (costs t.locking + round_costs t.rounds))

  abbrev pub turn_costs : List (Turn A) → ℕ
  turn_costs [] = 0
  turn_costs (t ∷ ts) = turn_cost t + turn_costs ts

  -- The number of elements is written unless the queue was closed at the start.
  abbrev pub view_total_count : View A → ℕ → List A → ℕ
  view_total_count v total_count xs = if v.closed then total_count else length xs

module _ {ℓ} {A : Type ℓ} (cap : ℕ) where
  -- An element goes in at once where there is room, and otherwise as by `WaitPush`.
  unfoldable pub view_element : Turn A → View A → A → Waited Bool × View A
  unfolding view_steps view_wait_push
  view_element t v x =
      let w = view_steps cap v t.before in
      let later = view_wait_push cap t.rounds (view_steps cap w t.locking) x in
      if has_room cap w then (returned true, view_append w x) else later

  unfoldable pub view_rest : List (Turn A) → View A → List A → ℕ → Waited ℕ × View A
  unfolding view_element
  view_rest turns v [] n = (returned n, v)
  view_rest [] v (x ∷ xs) n = (blocked, v)
  view_rest (t ∷ turns) v (x ∷ xs) n =
      let (r, w) = view_element t v x in
      elim r [
        | returned true ↦ view_rest turns w xs (n + 1)
        | returned false ↦ (returned n, w)
        | blocked ↦ (blocked, w)
      ]

  -- As many as fit at once, and the rest in its order.
  unfoldable pub view_wait_push_batch : List (Turn A) → View A → List A → Waited ℕ × View A
  unfolding view_push_batch view_rest
  view_wait_push_batch turns v [] = (returned 0, v)
  view_wait_push_batch turns v (x ∷ xs) =
      if v.closed
      then (returned 0, v)
      else (let (count, w) = view_push_batch cap v (x ∷ xs) in
          view_rest turns w (drop count (x ∷ xs)) count)

  -- One item for each turn, until `k` more are there or the queue is closed and empty.
  unfoldable pub view_missing : ℕ → List (Turn A) → View A → List A → Waited Bool × List A × View A
  unfolding view_steps view_first_look view_wait_pop
  view_missing zero turns v out = (returned true, out, v)
  view_missing (suc k) [] v out = (blocked, out, v)
  view_missing (suc k) (t ∷ turns) v out =
      let w = view_steps cap v t.before in
      let (r, u) =
        view_first_look w.items w (view_wait_pop cap t.rounds (view_steps cap w t.locking)) in
      elim r [
        | returned o ↦ elim o [
          | some x ↦ view_missing k turns u (out ++ x ∷ [])
          | none ↦ (returned false, out, u)
        ]
        | blocked ↦ (blocked, out, u)
      ]

  unfoldable pub view_wait_pop_batch :
      List (Turn A) → View A → (max_count min_count : ℕ) → Waited (List A) × View A
  unfolding view_pop_batch view_missing
  view_wait_pop_batch turns v max_count min_count =
      let (out, popped, w) = view_pop_batch cap v max_count in
      let (r, got, u) = view_missing (least max_count min_count - popped) turns w out in
      let (more, count, z) = view_pop_batch cap u (max_count - least max_count min_count) in
      if leb (least max_count min_count) popped || (popped == max_count)
      then (returned out, w)
      else elim r [
        | returned true ↦ (returned (got ++ more), z)
        | returned false ↦ (returned got, u)
        | blocked ↦ (blocked, u)
      ]
