-- ===== src/Balancer/Tests.antt =====
-- One to three workers, which grow at once and shrink at the second hit.
use cpp_mpmc_thread_pool.Base.{◌*◌, ◌≡◌, refl, true, false, List, [], ◌∷◌, arith, leb}
use cpp_mpmc_thread_pool.Balancer.{Limits, Sample, Balancer, round, rounds}
use cpp_mpmc_thread_pool.Balancer.Pace.{Paced, round-Paced}
use cpp_mpmc_thread_pool.Balancer.Bounds.{Bounded, rounds-Bounded}

-- The thresholds are three quarters and one quarter.
abbrev limits : Limits
limits = record {
  core_threads = 1;
  max_threads = 3;
  pending_hi = 4;
  pending_low = 1;
  debounce_hits = 2;
  cooldown = 10;
  busy = λ active current. leb (current * 3) (active * 4);
  calm = λ active current. leb (active * 4) current;
}

abbrev one_worker : Balancer
one_worker = record {
  up_hits = 0;
  down_hits = 0;
  last_adjust = 0;
  workers = record { number = 0; should_exit = false; idle = true } ∷ [];
  next = 1;
  current_threads = 1;
  peak_threads = 1;
  total_threads_created = 1;
  total_threads_destroyed = 0;
}

one_worker-Bounded : Bounded 1 3 one_worker
one_worker-Bounded = record { counted = refl; enough = omega arith; not_too_many = omega arith }

-- The queue is full twice, then the pool is quiet.
abbrev busy_then_quiet : List Sample
busy_then_quiet =
    record { kicked = true; now = 1; pending = 9; active = 1 }
    ∷ record { kicked = false; now = 5; pending = 9; active = 1 }
    ∷ record { kicked = false; now = 11; pending = 9; active = 1 }
    ∷ record { kicked = false; now = 12; pending = 0; active = 0 }
    ∷ record { kicked = false; now = 30; pending = 0; active = 0 }
    ∷ record { kicked = true; now = 31; pending = 0; active = 0 }
    ∷ []

rounds-Bounded_example : Bounded 1 3 (rounds limits busy_then_quiet one_worker)
rounds-Bounded_example = rounds-Bounded limits (omega arith) busy_then_quiet one_worker-Bounded

grown_and_shrunk : (rounds limits busy_then_quiet one_worker).total_threads_created ≡ 2
unfolding rounds
grown_and_shrunk = refl

left_again : (rounds limits busy_then_quiet one_worker).current_threads ≡ 1
unfolding rounds
left_again = refl

round-Paced_example :
    Paced limits
      (record { kicked = false; now = 30; pending = 9; active = 1 })
      one_worker
      (round limits (record { kicked = false; now = 30; pending = 9; active = 1 }) one_worker)
round-Paced_example =
    round-Paced limits (record { kicked = false; now = 30; pending = 9; active = 1 }) one_worker
