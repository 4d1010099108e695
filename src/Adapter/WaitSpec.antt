-- ===== src/Adapter/WaitSpec.antt =====
-- What the blocking calls promise, by the queue that they see each time they look.
use cpp_mpmc_thread_pool.Base.{
  ℕ, ◌+◌, Bool, true, false, Option, none, some, List, [], ◌∷◌, if◌then◌else◌,
}
use cpp_mpmc_thread_pool.Adapter.{not_full_one, Call}
use cpp_mpmc_thread_pool.Adapter.Spec.{View, has_room, view_push, view_steps, costs}
use cpp_mpmc_thread_pool.Adapter.Wait.{Waited, returned, blocked}

module _ {ℓ} {A : Type ℓ} where
  -- A consumer takes the oldest item where there is one, also from a closed queue. From an empty
  -- queue it returns without one if the queue is closed, and waits otherwise.
  unfoldable pub view_look :
      List A → View A → Waited (Option A) × View A → Waited (Option A) × View A
  view_look [] v later = if v.closed then (returned none, v) else later
  view_look (x ∷ xs) v later =
      (returned (some x), record v { items = xs; signals = not_full_one ∷ v.signals })

  -- The first look of `WaitPop`, without the mutex, does not ask whether the queue is closed.
  unfoldable pub view_first_look :
      List A → View A → Waited (Option A) × View A → Waited (Option A) × View A
  view_first_look [] v later = later
  view_first_look (x ∷ xs) v later =
      (returned (some x), record v { items = xs; signals = not_full_one ∷ v.signals })

module _ {ℓ} {A : Type ℓ} (cap : ℕ) where
  -- A producer looks before each round: it is refused by a closed queue, stores its item where there
  -- is room, and otherwise waits for another round.
  unfoldable pub view_wait_push : List (List (Call A)) → View A → A → Waited Bool × View A
  unfolding view_push view_steps
  view_wait_push [] v x =
      if v.closed
      then (returned false, v)
      else if has_room cap v
      then (returned true, (view_push cap v x).1)
      else (blocked, v)
  view_wait_push (round ∷ rounds) v x =
      let later = view_wait_push rounds (view_steps cap v round) x in
      if v.closed
      then (returned false, v)
      else if has_room cap v
      then (returned true, (view_push cap v x).1)
      else later

  unfoldable pub view_wait_pop : List (List (Call A)) → View A → Waited (Option A) × View A
  unfolding view_look view_steps
  view_wait_pop [] v = view_look v.items v (blocked, v)
  view_wait_pop (round ∷ rounds) v =
      view_look v.items v (view_wait_pop rounds (view_steps cap v round))

abbrev pub round_costs {ℓ} : {A : Type ℓ} → List (List (Call A)) → ℕ
round_costs [] = 0
round_costs (r ∷ rs) = costs r + round_costs rs
