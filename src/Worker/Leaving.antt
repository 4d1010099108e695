-- ===== src/Worker/Leaving.antt =====
-- A worker of src/thread_pool.cpp leaves its loop once the queue is closed and empty.
use mathlib.Core.Path.{subst}
use cpp_mpmc_thread_pool.Base.{
  ℕ, zero, suc, ◌-◌, ◌≤◌, ◌≡◌, ◌≢◌, refl, sym, ap, ◌∙◌, ◌⊎◌, inl, inr, true, false, some, List, [],
  ◌∷◌, arith, get_elem?, set, Bool-cases,
}
use cpp_mpmc_thread_pool.Base.Words.{add_size, sub_size}
use cpp_mpmc_thread_pool.Pool.{
  PoolState, created, running, paused, shutting_down, force_stopping, stopped,
}
use cpp_mpmc_thread_pool.Worker.{
  Stage, looking, pausing, popping, executing, gone, Worker, Crew, missed, task_off, leave,
  look_around, wake_up, handle, act, put_worker, Event, worker_event, step, steps,
}

-- How many steps of its own a worker is away from its end, at most.
abbrev pub distance : Stage → ℕ
distance gone = 0
distance popping = 1
distance looking = 2
distance pausing = 3
distance executing = 3

get_elem?-set :
    {A : Type 0} (xs : List A) (k : ℕ) (x y : A)
    → get_elem? xs k ≡ some x
    → get_elem? (set xs k y) k ≡ some y
get_elem?-set [] k x y e = absurd (cc)
get_elem?-set (z ∷ xs) zero x y e = refl
get_elem?-set (z ∷ xs) (suc k) x y e = get_elem?-set xs k x y e

-- What a step leaves: the state, the list of the other workers, and a worker that is nearer to its end.
record Nearer (c : Crew) (q : Stage) (r : Crew × Worker) : Type 0 where
  same_state : r.0.state ≡ c.state
  same_workers : r.0.workers ≡ c.workers
  less : distance r.1.stage ≤ distance q - 1

module _ (c : Crew) (w : Worker) where
  task_off-cases :
      (task_off c w ≡ (c, w))
      ⊎ (task_off c w ≡ (
        record c {
          active_threads = sub_size c.active_threads 1;
          active_tasks = sub_size c.active_tasks 1;
        },
        record w { idle = true; idle_nums = add_size w.idle_nums 1; normal_end = false },
      ))
  unfolding task_off
  task_off-cases = elim (Bool-cases w.normal_end) [
    | inl e ↦ inr (rw e refl)
    | inr e ↦ inl (rw e refl)
  ]

  leave-Nearer : (q : Stage) → Nearer c q (leave c w)
  unfolding leave
  leave-Nearer q = elim task_off-cases [
    | inl e ↦ rw e (record { same_state = refl; same_workers = refl; less = omega arith })
    | inr e ↦ rw e (record { same_state = refl; same_workers = refl; less = omega arith })
  ]

  look_around-Nearer : (s : PoolState) → s ≢ paused → Nearer c looking (look_around c w s)
  unfolding look_around
  look_around-Nearer paused ne = absurd (ne refl)
  look_around-Nearer force_stopping ne = leave-Nearer looking
  look_around-Nearer created ne = record {
    same_state = refl;
    same_workers = refl;
    less = omega arith;
  }
  look_around-Nearer running ne = record {
    same_state = refl;
    same_workers = refl;
    less = omega arith;
  }
  look_around-Nearer shutting_down ne = record {
    same_state = refl;
    same_workers = refl;
    less = omega arith;
  }
  look_around-Nearer stopped ne = record {
    same_state = refl;
    same_workers = refl;
    less = omega arith;
  }

  wake_up-Nearer : (s : PoolState) → s ≢ paused → Nearer c pausing (wake_up c w s)
  unfolding wake_up
  wake_up-Nearer paused ne = absurd (ne refl)
  wake_up-Nearer force_stopping ne = record {
    same_state = refl;
    same_workers = refl;
    less = omega arith;
  }
  wake_up-Nearer created ne = record { same_state = refl; same_workers = refl; less = omega arith }
  wake_up-Nearer running ne = record { same_state = refl; same_workers = refl; less = omega arith }
  wake_up-Nearer shutting_down ne = record {
    same_state = refl;
    same_workers = refl;
    less = omega arith;
  }
  wake_up-Nearer stopped ne = record { same_state = refl; same_workers = refl; less = omega arith }

  act-Nearer : (q : Stage) → w.stage ≡ q → c.state ≢ paused → Nearer c q (act c w q (missed true))
  unfolding act handle
  act-Nearer looking e ne = look_around-Nearer c.state ne
  act-Nearer pausing e ne = wake_up-Nearer c.state ne
  act-Nearer popping e ne = leave-Nearer popping
  act-Nearer executing e ne = elim task_off-cases [
    | inl h ↦ rw h (record { same_state = refl; same_workers = refl; less = omega arith })
    | inr h ↦ rw h (record { same_state = refl; same_workers = refl; less = omega arith })
  ]
  act-Nearer gone e ne = record {
    same_state = refl;
    same_workers = refl;
    less = omega (arith, ap distance e);
  }

-- `n` steps of the `k`th worker, which finds the queue closed and empty.
abbrev pub finding_closed : ℕ → ℕ → List Event
finding_closed k zero = []
finding_closed k (suc n) = worker_event k (missed true) ∷ finding_closed k n

gone_at_zero : (q : Stage) → distance q ≤ 0 → q ≡ gone
gone_at_zero gone le = refl
gone_at_zero popping le = absurd (omega arith)
gone_at_zero looking le = absurd (omega arith)
gone_at_zero pausing le = absurd (omega arith)
gone_at_zero executing le = absurd (omega arith)

distance_le : (q : Stage) → distance q ≤ 3
distance_le gone = omega arith
distance_le popping = omega arith
distance_le looking = omega arith
distance_le pausing = omega arith
distance_le executing = omega arith

step_worker :
    (c : Crew) (k : ℕ) (w : Worker)
    → get_elem? c.workers k ≡ some w
    → step c (worker_event k (missed true)) ≡ put_worker k (act c w w.stage (missed true))
unfolding step
step_worker c k w e = rw (e, step) refl

steps_gone :
    (n k : ℕ) (c : Crew) (w : Worker)
    → get_elem? c.workers k ≡ some w
    → c.state ≢ paused
    → distance w.stage ≤ n
    → (v : Worker) × (get_elem? (steps c (finding_closed k n)).workers k ≡ some v)
      × (v.stage ≡ gone)
unfolding steps
steps_gone zero k c w e ne le = (w, e, gone_at_zero w.stage le)
steps_gone (suc n) k c w e ne le =
    let r = act c w w.stage (missed true) in
    let h = act-Nearer c w w.stage refl ne in
    let d = put_worker k r in
    let there : get_elem? d.workers k ≡ some r.1 =
      get_elem?-set r.0.workers k w r.1 (ap (λ ws. get_elem? ws k) h.same_workers ∙ e) in
    let same : step c (worker_event k (missed true)) ≡ d = step_worker c k w e in
    let rest =
      steps_gone n k d r.1 there (λ p. ne (sym h.same_state ∙ p)) (omega (arith, h.less)) in
    subst
      (λ (b : Crew).
        (v : Worker) × (get_elem? (steps b (finding_closed k n)).workers k ≡ some v)
        × (v.stage ≡ gone))
      (sym same) rest

-- Wherever a worker stands, three steps of its own take it out of its loop, if the pool is not
-- paused and the queue is closed and has nothing for it.
pub worker_leaves :
    (c : Crew) (k : ℕ) (w : Worker)
    → get_elem? c.workers k ≡ some w
    → c.state ≢ paused
    → (v : Worker) × (get_elem? (steps c (finding_closed k 3)).workers k ≡ some v)
      × (v.stage ≡ gone)
worker_leaves c k w e ne = steps_gone 3 k c w e ne (distance_le w.stage)
