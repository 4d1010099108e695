-- ===== src/Adapter/Tests.antt =====
-- The adapter on small inputs.
use cpp_mpmc_thread_pool.Base.{
  ℕ, suc, ◌+◌, ◌<◌, ◌^◌, ◌≡◌, refl, true, false, none, some, List, [], ◌∷◌, arith,
}
use cpp_mpmc_thread_pool.Ring
use cpp_mpmc_thread_pool.Ring.Repr.{InRange}
use cpp_mpmc_thread_pool.Adapter.{
  Adapter, not_empty_all, Call, push_call, pop_call, push_batch_call, pop_batch_call,
  overwrite_call, close_call, make, capacity, clear, steps,
}
use cpp_mpmc_thread_pool.Adapter.Spec.{
  View, new_view, Models, Becomes, costs, view_clear, view_steps,
}
use cpp_mpmc_thread_pool.Adapter.Steps.{clear_refines, steps_refines, make-Models}
use cpp_mpmc_thread_pool.Adapter.Wait.{returned, wait_push, wait_pop, wait_push_for}
use cpp_mpmc_thread_pool.Adapter.WaitSpec.{
  view_wait_push, view_wait_pop, view_first_look, round_costs,
}
use cpp_mpmc_thread_pool.Adapter.Deadline.{view_wait_push_for, wait_push_for_refines}
use cpp_mpmc_thread_pool.Adapter.Sleep.{
  pushes_early, early_calls, pushes, wait_once, sleeping, Awaited, wakeup_missed,
}
use cpp_mpmc_thread_pool.Adapter.Waiting.{wait_push_refines, wait_pop_refines}

abbrev two : Adapter ℕ
two = make 2

two-Models : Models two new_view
two-Models = (make-Models ℕ 2 (omega arith)).0

abbrev history : List (Call ℕ)
history =
    push_call 1
    ∷ push_call 2
    ∷ push_call 3
    ∷ pop_call
    ∷ overwrite_call 4
    ∷ overwrite_call 5
    ∷ close_call
    ∷ push_call 6
    ∷ pop_batch_call 1
    ∷ []

history_fits : two.queue.producer_pos + costs history + capacity two < 2 ^ 63
unfolding make Ring.make
history_fits = omega arith

-- 3 is discarded, 2 is overwritten, 6 comes after the queue is closed, and 4 is popped.
abbrev final_view : View ℕ
final_view = view_steps 2 new_view history

steps_refines_example :
    (b : Adapter ℕ) × (steps two history ≡ some b)
    × Becomes two (costs history) b (view_steps (capacity two) new_view history)
steps_refines_example = steps_refines history two-Models history_fits

final_items : final_view.items ≡ 5 ∷ []
unfolding view_steps
final_items = refl

final_discards : final_view.discards ≡ 1
unfolding view_steps
final_discards = refl

abbrev filling : List (Call ℕ)
filling = push_batch_call (1 ∷ 2 ∷ []) ∷ []

filling_fits : two.queue.producer_pos + costs filling + capacity two < 2 ^ 63
unfolding make Ring.make
filling_fits = omega arith

-- The queue with two items, which is full.
filled :
    (b : Adapter ℕ) × (steps two filling ≡ some b)
    × Becomes two (costs filling) b (view_steps (capacity two) new_view filling)
filled = steps_refines filling two-Models filling_fits

abbrev full_adapter : Adapter ℕ
full_adapter = filled.0

abbrev full_view : View ℕ
full_view = record {
  items = 1 ∷ 2 ∷ [];
  discards = 0;
  closed = false;
  signals = not_empty_all ∷ [];
}

full-Models : Models full_adapter full_view
unfolding view_steps make Ring.make
full-Models = filled.2.models

full_fits : full_adapter.queue.producer_pos + 2 + capacity full_adapter < 2 ^ 63
unfolding make Ring.make
full_fits = omega (arith, filled.2.tickets, filled.2.same_capacity)

full-InRange : InRange full_adapter.queue
full-InRange = omega (arith, full_fits)

full_capacity : capacity full_adapter ≡ 2
unfolding make Ring.make
full_capacity = filled.2.same_capacity

-- Counts the items that `Clear` hands over.
abbrev count_item : ℕ → ℕ → ℕ
count_item x n = suc n

clear_refines_example :
    (b : Adapter ℕ) × (clear full_adapter count_item 0 ≡ some (2, b))
    × Becomes full_adapter 0 b (view_clear full_view)
clear_refines_example = clear_refines count_item full_view 0 full-Models full-InRange

wait_push_fits : full_adapter.queue.producer_pos + 1 + capacity full_adapter < 2 ^ 63
wait_push_fits = omega (arith, full_fits)

-- The queue is full until another thread pops.
wait_push_refines_example :
    let (r, w) = view_wait_push (capacity full_adapter) ([] ∷ (pop_call ∷ []) ∷ []) full_view 9 in
    (b : Adapter ℕ) × (wait_push [] ((pop_call ∷ []) ∷ []) full_adapter 9 ≡ some (r, b))
    × Becomes full_adapter 1 b w
wait_push_refines_example = wait_push_refines [] ((pop_call ∷ []) ∷ []) 9 full-Models wait_push_fits

pushed_9 : (view_wait_push 2 ([] ∷ (pop_call ∷ []) ∷ []) full_view 9).0 ≡ returned true
unfolding view_wait_push
pushed_9 = refl

-- An empty queue that another thread closes while the consumer waits for its mutex.
abbrev closing : List (Call ℕ)
closing = close_call ∷ []

wait_pop_fits :
    two.queue.producer_pos + costs closing + round_costs {A = ℕ} [] + capacity two < 2 ^ 63
unfolding make Ring.make
wait_pop_fits = omega arith

wait_pop_refines_example :
    let (r, w) =
      view_first_look [] new_view
        (view_wait_pop (capacity two) [] (view_steps (capacity two) new_view closing)) in
    (b : Adapter ℕ) × (wait_pop closing [] two ≡ some (r, b)) × Becomes two 0 b w
wait_pop_refines_example = wait_pop_refines closing [] two-Models wait_pop_fits

popped_none :
    (view_first_look [] new_view (view_wait_pop 2 [] (view_steps 2 new_view closing))).0
    ≡ returned none
unfolding view_first_look view_wait_pop view_steps
popped_none = refl

-- A push that comes before the wait, and one during it.
late_fits :
    two.queue.producer_pos
      + (costs {A = ℕ} (early_calls (pushes_early 1 [])) + costs {A = ℕ} (pushes (2 ∷ [])))
      + capacity two
    < 2 ^ 63
unfolding make Ring.make
late_fits = omega arith

wakeup_missed_example :
    (d : Adapter ℕ) × (w : View ℕ) × (wait_once
        (early_calls (pushes_early 1 []))
        (pushes (2 ∷ []))
        two
      ≡ some (sleeping, d))
    × Models d w
    × Awaited w
wakeup_missed_example = wakeup_missed (pushes_early 1 []) (2 ∷ []) two-Models refl refl late_fits

-- Nobody makes room before the deadline.
wait_push_for_refines_example :
    let (r, w) =
      view_wait_push_for (capacity full_adapter) (([], false) ∷ ([], true) ∷ []) full_view 9 in
    (b : Adapter ℕ) × (wait_push_for [] (([], true) ∷ []) full_adapter 9 ≡ some (r, b))
    × Becomes full_adapter 1 b w
wait_push_for_refines_example =
    wait_push_for_refines [] (([], true) ∷ []) 9 full-Models wait_push_fits

gave_up : (view_wait_push_for 2 (([], false) ∷ ([], true) ∷ []) full_view 9).1.discards ≡ 1
unfolding view_wait_push_for view_steps
gave_up = refl
