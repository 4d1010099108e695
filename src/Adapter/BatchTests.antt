-- ===== src/Adapter/BatchTests.antt =====
-- The blocking batch calls on a queue of two places.
use cpp_mpmc_thread_pool.Base.{
  ℕ, suc, ◌+◌, ◌≤◌, ◌<◌, ◌^◌, ◌≡◌, ◌⊎◌, refl, true, none, some, List, [], ◌∷◌, arith, length,
}
use cpp_mpmc_thread_pool.Base.Words.{ptr_diff}
use cpp_mpmc_thread_pool.Ring
use cpp_mpmc_thread_pool.Adapter.{
  Adapter, steps, step, try_push, try_push_batch, push_call, pop_call, push_batch_call, close_call,
  make, capacity,
}
use cpp_mpmc_thread_pool.Adapter.Spec.{new_view, Models, Becomes}
use cpp_mpmc_thread_pool.Adapter.Steps.{make-Models}
use cpp_mpmc_thread_pool.Adapter.Wait.{returned}
use cpp_mpmc_thread_pool.Adapter.WaitBatch.{Turn, least, wait_push_batch, wait_pop_batch}
use cpp_mpmc_thread_pool.Adapter.WaitBatchSpec.{view_total_count, turn_costs, view_wait_push_batch}
use cpp_mpmc_thread_pool.Adapter.WaitBatching.{wait_push_batch_refines}
use cpp_mpmc_thread_pool.Adapter.WaitBatchSize.{wait_pop_batch_size}

abbrev pair : Adapter ℕ
pair = make 2

pair-Models : Models pair new_view
pair-Models = (make-Models ℕ 2 (omega arith)).0

abbrev items : List ℕ
items = 1 ∷ 2 ∷ 3 ∷ 4 ∷ []

abbrev got : List ℕ
got = 7 ∷ 8 ∷ 9 ∷ []

-- A consumer makes room in the first wait; the queue is closed before the next element, and a last
-- item is taken.
abbrev turns : List (Turn ℕ)
turns =
    record { before = []; locking = []; rounds = (pop_call ∷ []) ∷ [] }
    ∷ record { before = pop_call ∷ close_call ∷ []; locking = []; rounds = [] }
    ∷ []

turns_fit : pair.queue.producer_pos + (length items + turn_costs turns) + capacity pair < 2 ^ 63
unfolding make Ring.make
turns_fit = omega arith

wait_push_batch_refines_example :
    let (r, w) = view_wait_push_batch (capacity pair) turns new_view items in
    (b : Adapter ℕ) × (wait_push_batch turns pair 9 items
      ≡ some (r, view_total_count new_view 9 items, b))
    × Becomes pair (length items + turn_costs turns) b w
wait_push_batch_refines_example = wait_push_batch_refines turns 9 items pair-Models turns_fit

-- The element 4 goes into the closed queue.
stored_closed : (view_wait_push_batch 2 turns new_view items).1.items ≡ 3 ∷ 4 ∷ []
unfolding view_wait_push_batch
stored_closed = refl

was_closed : (view_wait_push_batch 2 turns new_view items).1.closed ≡ true
unfolding view_wait_push_batch
was_closed = refl

-- Two items come while the consumer waits, and a third before it asks for what is left.
abbrev arrivals : List (Turn ℕ)
arrivals =
    record { before = push_call 7 ∷ []; locking = []; rounds = [] }
    ∷ record { before = []; locking = push_batch_call (8 ∷ 9 ∷ []) ∷ []; rounds = [] }
    ∷ []

arrivals_fit : pair.queue.producer_pos + turn_costs arrivals + capacity pair < 2 ^ 63
unfolding make Ring.make
arrivals_fit = omega arith

abbrev emptied : Adapter ℕ
unfolding wait_pop_batch
emptied = elim (wait_pop_batch arrivals pair 3 2) [ none ↦ pair | some (r, b) ↦ b ]

arrivals_run : wait_pop_batch arrivals pair 3 2 ≡ some (returned got, emptied)
unfolding wait_pop_batch make Ring.make ptr_diff Ring.try_pop_batch steps step try_push
    Ring.try_push try_push_batch Ring.try_push_batch
arrivals_run = refl

wait_pop_batch_size_example :
    (length got ≤ 3) × ((least 3 2 ≤ length got) ⊎ ((emptied.close ≡ true) ⊎ (suc 2 ≡ 0)))
wait_pop_batch_size_example =
    wait_pop_batch_size arrivals 3 2 pair-Models arrivals_fit got emptied arrivals_run
