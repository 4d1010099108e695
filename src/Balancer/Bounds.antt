-- ===== src/Balancer/Bounds.antt =====
-- The number of workers under rounds of `LoadBalancerLoop`.
use mathlib.Core.Path.{subst}
use cpp_mpmc_thread_pool.Base.{
  ℕ, suc, ◌+◌, ◌≤◌, ◌<◌, ◌^◌, ◌≡◌, refl, sym, ap, ◌⊎◌, inl, inr, true, false, List, [], ◌∷◌, arith,
  length, ltb, leb, ◌==◌, if◌then◌else◌, Bool-cases, length-append, ltb→lt, eq→==,
}
use cpp_mpmc_thread_pool.Base.Words.{add_size}
use cpp_mpmc_thread_pool.Balancer.{
  WorkerSlot, Limits, Sample, Balancer, create_worker, schedule_shrink, erase_slot, retire_workers,
  to_grow, to_shrink, settled, grow, shrink_one, shrink, round, rounds,
}

-- A schedule for one worker finds none, or a slot that a retirement takes out.
abbrev Scheduled : List WorkerSlot → List WorkerSlot × List ℕ → Type 0
Scheduled slots (marked, targets) =
    (length marked ≡ length slots)
    × ((targets ≡ [])
        ⊎ ((k : ℕ) × (targets ≡ k ∷ []) × (suc (length (erase_slot k marked)) ≡ length slots)))

-- A slot that is passed over.
passed-Scheduled :
    (s : WorkerSlot) (ss marked : List WorkerSlot) (targets : List ℕ)
    → Scheduled ss (marked, targets)
    → Scheduled (s ∷ ss) (s ∷ marked, targets)
unfolding erase_slot
passed-Scheduled s ss marked targets (l, inl e) = (ap suc l, inl e)
passed-Scheduled s ss marked targets (l, inr (k, e, m)) = elim (Bool-cases (s.number == k)) [
  | inl same ↦ (ap suc l, inr (k, e, ground (arith, same, l)))
  | inr other ↦ (ap suc l, inr (k, e, ground (arith, other, m)))
]

eq_refl : (n : ℕ) → (n == n) ≡ true
eq_refl n = eq→== n n refl

-- The first idle slot that is not marked yet.
found-Scheduled :
    (s : WorkerSlot) (ss : List WorkerSlot)
    → Scheduled (s ∷ ss) (record s { should_exit = true } ∷ ss, s.number ∷ [])
unfolding erase_slot
found-Scheduled s ss = (refl, inr (s.number, refl, ground (arith, eq_refl s.number)))

schedule_shrink-Scheduled : (slots : List WorkerSlot) → Scheduled slots (schedule_shrink 1 slots)
unfolding schedule_shrink
schedule_shrink-Scheduled [] = (refl, inl refl)
schedule_shrink-Scheduled (s ∷ ss) =
    let (marked, targets) = schedule_shrink 1 ss in
    let later = passed-Scheduled s ss marked targets (schedule_shrink-Scheduled ss) in
    elim (Bool-cases s.idle) [
      | inl idle ↦ elim (Bool-cases s.should_exit) [
        | inl leaving ↦
            let e : schedule_shrink 1 (s ∷ ss) ≡ (s ∷ marked, targets) =
              ground (arith, idle, leaving) in
            subst (Scheduled (s ∷ ss)) (sym e) later
        | inr staying ↦
            let e : schedule_shrink 1 (s ∷ ss)
                ≡ (record s { should_exit = true } ∷ ss, s.number ∷ []) =
              ground (arith, idle, staying) in
            subst (Scheduled (s ∷ ss)) (sym e) (found-Scheduled s ss)
      ]
      | inr busy ↦
          let e : schedule_shrink 1 (s ∷ ss) ≡ (s ∷ marked, targets) = ground (arith, busy) in
          subst (Scheduled (s ∷ ss)) (sym e) later
    ]

-- The threads are counted right, and their number is between `low` and `high`.
pub record Bounded (low high : ℕ) (b : Balancer) : Type 0 where
  pub counted : b.current_threads ≡ length b.workers
  pub enough : low ≤ b.current_threads
  pub not_too_many : b.current_threads ≤ high

module _ (p : Limits) (fits : p.max_threads < 2 ^ 64) where
  shrink_one-Bounded :
      {b : Balancer}
      → Bounded p.core_threads p.max_threads b
      → p.core_threads < b.current_threads
      → Bounded p.core_threads p.max_threads (shrink_one p b)
  unfolding shrink_one retire_workers
  shrink_one-Bounded {b} v more =
      let (l, found) = schedule_shrink-Scheduled b.workers in
      elim found [
        | inl none_idle ↦ ground (arith, v, l, none_idle)
        | inr (k, e, m) ↦ ground (arith, v, m, e)
      ]

  create_worker-Bounded :
      {b : Balancer}
      → Bounded p.core_threads p.max_threads b
      → b.current_threads < p.max_threads
      → Bounded p.core_threads p.max_threads (create_worker b)
  create_worker-Bounded {b} v less =
      let e =
        length-append b.workers
          (record { number = b.next; should_exit = false; idle = true } ∷ []) in
      record {
        counted = omega (arith, v.counted, e, fits);
        enough = omega (arith, v.enough, fits);
        not_too_many = omega (arith, fits);
      }

  settled-Bounded :
      {b : Balancer} (now : ℕ)
      → Bounded p.core_threads p.max_threads b
      → Bounded p.core_threads p.max_threads (settled p b now)
  settled-Bounded now v = record {
    counted = v.counted;
    enough = v.enough;
    not_too_many = v.not_too_many;
  }

  grow-Bounded :
      {b : Balancer} (now : ℕ)
      → Bounded p.core_threads p.max_threads b
      → Bounded p.core_threads p.max_threads (grow p b now)
  unfolding grow
  grow-Bounded {b} now v = elim (Bool-cases (leb p.debounce_hits (add_size b.up_hits 1))) [
    | inl enough ↦ elim (Bool-cases (ltb b.current_threads p.max_threads)) [
      | inl less ↦
          let e : grow p b now ≡ create_worker (settled p b now) = ground (arith, enough, less) in
          subst (Bounded p.core_threads p.max_threads) (sym e)
            (create_worker-Bounded (settled-Bounded now v) (ltb→lt _ _ less))
      | inr most ↦
          let e : grow p b now ≡ settled p b now = ground (arith, enough, most) in
          subst (Bounded p.core_threads p.max_threads) (sym e) (settled-Bounded now v)
    ]
    | inr early ↦ ground (arith, v, early)
  ]

  shrink-Bounded :
      {b : Balancer} (now : ℕ)
      → Bounded p.core_threads p.max_threads b
      → Bounded p.core_threads p.max_threads (shrink p b now)
  unfolding shrink
  shrink-Bounded {b} now v = elim (Bool-cases (leb p.debounce_hits (add_size b.down_hits 1))) [
    | inl enough ↦ elim (Bool-cases (ltb p.core_threads b.current_threads)) [
      | inl more ↦
          let e : shrink p b now ≡ shrink_one p (settled p b now) = ground (arith, enough, more) in
          subst (Bounded p.core_threads p.max_threads) (sym e)
            (shrink_one-Bounded (settled-Bounded now v) (ltb→lt _ _ more))
      | inr least ↦
          let e : shrink p b now ≡ settled p b now = ground (arith, enough, least) in
          subst (Bounded p.core_threads p.max_threads) (sym e) (settled-Bounded now v)
    ]
    | inr early ↦ ground (arith, v, early)
  ]

  round-Bounded :
      (s : Sample) {b : Balancer}
      → Bounded p.core_threads p.max_threads b
      → Bounded p.core_threads p.max_threads (round p s b)
  unfolding round
  round-Bounded s {b} v =
      elim (Bool-cases (if s.kicked then false else ltb s.now (b.last_adjust + p.cooldown))) [
        | inl cooling ↦
            let e : round p s b ≡ b = ground (arith, cooling) in
            subst (Bounded p.core_threads p.max_threads) (sym e) v
        | inr due ↦ elim (Bool-cases (to_grow p s b)) [
          | inl growing ↦
              let e : round p s b ≡ grow p b s.now = ground (arith, due, growing) in
              subst (Bounded p.core_threads p.max_threads) (sym e) (grow-Bounded s.now v)
          | inr not_growing ↦ elim (Bool-cases (to_shrink p s b)) [
            | inl shrinking ↦
                let e : round p s b ≡ shrink p b s.now =
                  ground (arith, due, not_growing, shrinking) in
                subst (Bounded p.core_threads p.max_threads) (sym e) (shrink-Bounded s.now v)
            | inr steady ↦
                let e : round p s b ≡ record b { up_hits = 0; down_hits = 0 } =
                  ground (arith, due, not_growing, steady) in
                subst (Bounded p.core_threads p.max_threads) (sym e)
                  (record { counted = v.counted; enough = v.enough; not_too_many = v.not_too_many })
          ]
        ]
      ]

  -- Whatever the load balancer samples over any number of rounds, from a pool whose count of
  -- threads is the number of its workers and is from the core to the maximal number, these stay
  -- so, if the maximal number is below 2^64.
  pub rounds-Bounded :
      (ss : List Sample) {b : Balancer}
      → Bounded p.core_threads p.max_threads b
      → Bounded p.core_threads p.max_threads (rounds p ss b)
  unfolding rounds
  rounds-Bounded [] v = v
  rounds-Bounded (s ∷ ss) v = rounds-Bounded ss (round-Bounded s v)
