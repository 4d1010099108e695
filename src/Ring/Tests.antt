-- ===== src/Ring/Tests.antt =====
-- The ring on small inputs.
use cpp_mpmc_thread_pool.Base.{
  ℕ, suc, ◌-◌, ◌≤◌, ◌<◌, ◌+◌, ◌^◌, ◌≡◌, refl, Bool, false, Option, none, some, List, [], ◌∷◌, arith,
  length,
}
use cpp_mpmc_thread_pool.Base.Words.{ptr_diff}
use cpp_mpmc_thread_pool.Ring.{
  Ring, PushStatus, pushed, full, threw, round_up_to_pow2, make, try_push, try_push_with,
  approx_size, is_empty, is_full, try_front, try_push_batch, try_pop_batch,
}
use cpp_mpmc_thread_pool.Ring.Repr.{Repr, InRange}
use cpp_mpmc_thread_pool.Ring.Fifo.{
  Op, push_op, pop_op, Reply, push_reply, pop_reply, run, spec_run, After, run_refines,
}
use cpp_mpmc_thread_pool.Ring.Batch.{try_push_batch_refines, try_pop_batch_refines}
use cpp_mpmc_thread_pool.Ring.Capacity.{round_up_least, round_up_overflow, make-Repr}
use cpp_mpmc_thread_pool.Ring.Throwing.{dead_replies, throw_blocks}

abbrev four : Ring ℕ
four = make 3

four-Repr : Repr four []
four-Repr = (make-Repr ℕ 3 (omega arith)).0

four_capacity : four.capacity ≡ 4
unfolding make
four_capacity = refl

four_producer : four.producer_pos ≡ 0
unfolding make
four_producer = refl

abbrev calls : List (Op ℕ)
calls =
    push_op 1
    ∷ push_op 2
    ∷ push_op 3
    ∷ push_op 4
    ∷ push_op 5
    ∷ pop_op
    ∷ push_op 6
    ∷ pop_op
    ∷ pop_op
    ∷ pop_op
    ∷ pop_op
    ∷ pop_op
    ∷ []

calls_fit : four.producer_pos + length calls + four.capacity < 2 ^ 63
unfolding make
calls_fit = omega arith

abbrev replies : List (Reply ℕ)
replies =
    push_reply pushed
    ∷ push_reply pushed
    ∷ push_reply pushed
    ∷ push_reply pushed
    ∷ push_reply full
    ∷ pop_reply (some 1)
    ∷ push_reply pushed
    ∷ pop_reply (some 2)
    ∷ pop_reply (some 3)
    ∷ pop_reply (some 4)
    ∷ pop_reply (some 6)
    ∷ pop_reply none
    ∷ []

run_refines_example : (q : Ring ℕ) × (run four calls ≡ some (replies, q)) × Repr q []
unfolding make spec_run
run_refines_example = run_refines calls [] four-Repr calls_fit

abbrev five : List ℕ
five = 1 ∷ 2 ∷ 3 ∷ 4 ∷ 5 ∷ []

batch_fits : four.producer_pos + length five + four.capacity < 2 ^ 63
unfolding make
batch_fits = omega arith

try_push_batch_refines_example :
    (q : Ring ℕ) × (try_push_batch four five ≡ some (4, q)) × After four 5 q (1 ∷ 2 ∷ 3 ∷ 4 ∷ [])
unfolding make
try_push_batch_refines_example = try_push_batch_refines five four-Repr batch_fits

-- The ring that the batch leaves.
abbrev filled_ring : Ring ℕ
filled_ring = try_push_batch_refines_example.0

filled-Repr : Repr filled_ring (1 ∷ 2 ∷ 3 ∷ 4 ∷ [])
filled-Repr = try_push_batch_refines_example.2.holds

filled-InRange : InRange filled_ring
filled-InRange = omega (
  arith, try_push_batch_refines_example.2.tickets, try_push_batch_refines_example.2.same_capacity,
  four_capacity, four_producer,
)

try_pop_batch_refines_example :
    (q : Ring ℕ) × (try_pop_batch filled_ring 3 ≡ some (1 ∷ 2 ∷ 3 ∷ [], 3, q))
    × After filled_ring 0 q (4 ∷ [])
try_pop_batch_refines_example =
    try_pop_batch_refines 3 (1 ∷ 2 ∷ 3 ∷ 4 ∷ []) filled-Repr filled-InRange

round_up_least_example :
    (k : ℕ) × (1 ≤ k)
    × (k ≤ 63)
    × (round_up_to_pow2 1000 ≡ 2 ^ k)
    × (1000 ≤ 2 ^ k)
    × ((j : ℕ) → 1 ≤ j → 1000 ≤ 2 ^ j → 2 ^ k ≤ 2 ^ j)
round_up_least_example = round_up_least 1000 (omega arith)

round_up_overflow_example : round_up_to_pow2 9223372036854775809 ≡ 0
round_up_overflow_example = round_up_overflow 9223372036854775809 (omega arith) (omega arith)

make-Repr_example :
    Repr (make {A = ℕ} 3) [] × InRange (make {A = ℕ} 3) × (3 ≤ (make {A = ℕ} 3).capacity)
make-Repr_example = make-Repr ℕ 3 (omega arith)

throw_fits : suc four.producer_pos + length calls + four.capacity < 2 ^ 63
unfolding make
throw_fits = omega arith

throw_blocks_example :
    (q : Ring ℕ) × (last : Ring ℕ) × (try_push_with four none ≡ some (threw, q))
    × (run q calls ≡ some (dead_replies (four.capacity - 1) calls, last))
throw_blocks_example = throw_blocks calls four-Repr throw_fits

round_up_1000 : round_up_to_pow2 1000 ≡ 1024
unfolding round_up_to_pow2
round_up_1000 = refl

-- A front that is read stays where it is.
abbrev with_one : Option (PushStatus × Ring ℕ)
with_one = try_push four 8

front_of : Option (PushStatus × Ring ℕ) → Option (Option ℕ)
front_of none = none
front_of (some (s, r)) = try_front r

front_of_one : front_of with_one ≡ some (some 8)
unfolding front_of try_front try_push make ptr_diff
front_of_one = refl

status_of : Option (PushStatus × Ring ℕ) → Option (ℕ × Bool × Bool)
status_of none = none
status_of (some (s, r)) = some (approx_size r, is_empty r, is_full r)

status_of_one : status_of with_one ≡ some (1, false, false)
unfolding status_of approx_size is_empty is_full try_push make ptr_diff
status_of_one = refl
