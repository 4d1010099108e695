-- ===== src/Ring/Concurrent/Tests.antt =====
-- Two threads on a ring of two cells.
use cpp_mpmc_thread_pool.Base.{
  ℕ, ◌+◌, ◌^◌, ◌≤◌, ◌<◌, ◌≡◌, refl, true, false, none, some, List, [], ◌∷◌, ◌++◌, arith, length,
  drop,
}
use cpp_mpmc_thread_pool.Base.Words.{ptr_diff}
use cpp_mpmc_thread_pool.Ring.{make}
use cpp_mpmc_thread_pool.Ring.Repr.{Repr}
use cpp_mpmc_thread_pool.Ring.Concurrent.{
  idle, Choice, call_push, call_pop, go, System, start_of, steps,
}
use cpp_mpmc_thread_pool.Ring.Concurrent.Invariant.{times, AllClaimed}
use cpp_mpmc_thread_pool.Ring.Concurrent.Safety.{steps_safe}
use cpp_mpmc_thread_pool.Ring.Concurrent.Quiet.{quiet_refines}
use cpp_mpmc_thread_pool.Ring.Concurrent.Alone.{alone, steps_alone_end}

-- Both threads push at once; thread 1 loses the exchange, reloads, and then pops.
abbrev both : List (ℕ × Choice ℕ)
both =
    (0, call_push 7)
    ∷ (1, call_push 8)
    ∷ (0, go false)
    ∷ (1, go false)
    ∷ (0, go false)
    ∷ (1, go false)
    ∷ (1, go false)
    ∷ (1, go false)
    ∷ (0, go false)
    ∷ (0, go false)
    ∷ (1, go false)
    ∷ (1, go false)
    ∷ (1, call_pop)
    ∷ (1, go false)
    ∷ (1, go true)
    ∷ (1, go false)
    ∷ (1, go false)
    ∷ (1, go false)
    ∷ (1, go false)
    ∷ []

abbrev last : System ℕ
unfolding steps
last = elim (steps (start_of (make 2)) both) [ none ↦ start_of (make 2) | some t ↦ t ]

both_run : steps (start_of (make 2)) both ≡ some last
unfolding steps make ptr_diff
both_run = refl

both_claimed : last.claimed ≡ 7 ∷ 8 ∷ []
unfolding steps make ptr_diff
both_claimed = refl

both_returned : last.returned ≡ (0, 7) ∷ []
unfolding steps make ptr_diff
both_returned = refl

both_idle : (i : ℕ) → last.pc i ≡ idle
unfolding steps make ptr_diff
both_idle i = ground arith

both_fits : length both + (make {A = ℕ} 2).capacity < 2 ^ 63
unfolding make
both_fits = omega arith

steps_safe_example :
    (t : System ℕ) × (steps (start_of (make 2)) both ≡ some t)
    × (t.ring.consumer_pos ≤ t.ring.producer_pos)
    × (t.ring.producer_pos ≤ t.ring.consumer_pos + t.ring.capacity)
    × (length t.claimed ≡ t.ring.producer_pos)
    × AllClaimed t.claimed t.returned
    × ((k : ℕ) → times k t.returned ≤ 1)
steps_safe_example = steps_safe 2 both (omega arith) both_fits

quiet_refines_example :
    Repr last.ring (drop last.ring.consumer_pos last.claimed)
    × (length last.claimed ≡ last.ring.producer_pos)
    × ((k : ℕ) → k < last.ring.consumer_pos → times k last.returned ≡ 1)
quiet_refines_example = quiet_refines 2 both last (omega arith) both_fits both_run both_idle

-- Thread 0 stops behind its claim; thread 1 comes to an end.
abbrev stuck : List (ℕ × Choice ℕ)
stuck = (0, call_push 7) ∷ (0, go false) ∷ (0, go false) ∷ (1, call_pop) ∷ []

stuck_fits : length stuck + 6 + (make {A = ℕ} 2).capacity < 2 ^ 63
unfolding make
stuck_fits = omega arith

steps_alone_end_example :
    (t : System ℕ) × (steps (start_of (make 2)) (stuck ++ alone 1 6) ≡ some t) × (t.pc 1 ≡ idle)
steps_alone_end_example = steps_alone_end 2 stuck 1 (omega arith) stuck_fits
