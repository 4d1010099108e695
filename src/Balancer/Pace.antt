-- ===== src/Balancer/Pace.antt =====
-- When a round of `LoadBalancerLoop` may change the number of workers.
use mathlib.Core.Path.{subst}
use cpp_mpmc_thread_pool.Base.{
  ℕ, ◌+◌, ◌≡◌, refl, sym, ◌⊎◌, inl, inr, true, false, List, [], ◌∷◌, arith, ltb, leb, if◌then◌else◌,
  Bool-cases,
}
use cpp_mpmc_thread_pool.Base.Words.{add_size}
use cpp_mpmc_thread_pool.Balancer.{
  Limits, Sample, Balancer, create_worker, retire_worker, retire_workers, schedule_shrink, to_grow,
  to_shrink, settled, grow, shrink_one, shrink, round,
}

-- What a round may do to the workers: nothing, or a step for which it was time, that had enough hits,
-- and after which the count of hits and the cooldown start again.
pub data Paced (p : Limits) (s : Sample) (b : Balancer) (c : Balancer) : Type 0 where
  unchanged : c.workers ≡ b.workers → c.current_threads ≡ b.current_threads → Paced p s b c
  grown :
      to_grow p s b ≡ true
      → leb p.debounce_hits (add_size b.up_hits 1) ≡ true
      → c.last_adjust ≡ s.now
      → c.up_hits ≡ 0
      → c.down_hits ≡ 0
      → (s.kicked ≡ true) ⊎ (ltb s.now (b.last_adjust + p.cooldown) ≡ false)
      → Paced p s b c
  shrunk :
      to_grow p s b ≡ false
      → to_shrink p s b ≡ true
      → leb p.debounce_hits (add_size b.down_hits 1) ≡ true
      → c.last_adjust ≡ s.now
      → c.up_hits ≡ 0
      → c.down_hits ≡ 0
      → (s.kicked ≡ true) ⊎ (ltb s.now (b.last_adjust + p.cooldown) ≡ false)
      → Paced p s b c

-- Retirements leave the hits and the time alone.
retired :
    (ks : List ℕ) (b : Balancer)
    → ((retire_workers b ks).last_adjust ≡ b.last_adjust)
      × ((retire_workers b ks).up_hits ≡ b.up_hits)
      × ((retire_workers b ks).down_hits ≡ b.down_hits)
unfolding retire_workers
retired [] b = (refl, refl, refl)
retired (k ∷ ks) b = retired ks (retire_worker b k)

module _ (p : Limits) (s : Sample) (b : Balancer) where
  grow-Paced :
      to_grow p s b ≡ true
      → (s.kicked ≡ true) ⊎ (ltb s.now (b.last_adjust + p.cooldown) ≡ false)
      → Paced p s b (grow p b s.now)
  unfolding grow
  grow-Paced growing due = elim (Bool-cases (leb p.debounce_hits (add_size b.up_hits 1))) [
    | inl enough ↦ elim (Bool-cases (ltb b.current_threads p.max_threads)) [
      | inl less ↦
          let e : grow p b s.now ≡ create_worker (settled p b s.now) =
            ground (arith, enough, less) in
          subst (Paced p s b) (sym e) (grown growing enough refl refl refl due)
      | inr most ↦
          let e : grow p b s.now ≡ settled p b s.now = ground (arith, enough, most) in
          subst (Paced p s b) (sym e) (unchanged refl refl)
    ]
    | inr early ↦
        let e : grow p b s.now ≡ record b { up_hits = add_size b.up_hits 1 } =
          ground (arith, early) in
        subst (Paced p s b) (sym e) (unchanged refl refl)
  ]

  shrink-Paced :
      to_grow p s b ≡ false
      → to_shrink p s b ≡ true
      → (s.kicked ≡ true) ⊎ (ltb s.now (b.last_adjust + p.cooldown) ≡ false)
      → Paced p s b (shrink p b s.now)
  unfolding shrink shrink_one
  shrink-Paced not_growing shrinking due =
      elim (Bool-cases (leb p.debounce_hits (add_size b.down_hits 1))) [
        | inl enough ↦ elim (Bool-cases (ltb p.core_threads b.current_threads)) [
          | inl more ↦
              let e : shrink p b s.now ≡ shrink_one p (settled p b s.now) =
                ground (arith, enough, more) in
              let (marked, targets) = schedule_shrink 1 b.workers in
              let (l, u, d) =
                retired targets (record b {
                  up_hits = 0;
                  down_hits = 0;
                  last_adjust = s.now;
                  workers = marked;
                }) in
              subst (Paced p s b) (sym e) (shrunk not_growing shrinking enough l u d due)
          | inr least ↦
              let e : shrink p b s.now ≡ settled p b s.now = ground (arith, enough, least) in
              subst (Paced p s b) (sym e) (unchanged refl refl)
        ]
        | inr early ↦
            let e : shrink p b s.now ≡ record b { down_hits = add_size b.down_hits 1 } =
              ground (arith, early) in
            subst (Paced p s b) (sym e) (unchanged refl refl)
      ]

  -- Behind the test of the cooldown.
  due-Paced :
      (s.kicked ≡ true) ⊎ (ltb s.now (b.last_adjust + p.cooldown) ≡ false)
      → (if s.kicked then false else ltb s.now (b.last_adjust + p.cooldown)) ≡ false
      → Paced p s b (round p s b)
  unfolding round
  due-Paced due h = elim (Bool-cases (to_grow p s b)) [
    | inl growing ↦
        let e : round p s b ≡ grow p b s.now = ground (arith, h, growing) in
        subst (Paced p s b) (sym e) (grow-Paced growing due)
    | inr not_growing ↦ elim (Bool-cases (to_shrink p s b)) [
      | inl shrinking ↦
          let e : round p s b ≡ shrink p b s.now = ground (arith, h, not_growing, shrinking) in
          subst (Paced p s b) (sym e) (shrink-Paced not_growing shrinking due)
      | inr steady ↦
          let e : round p s b ≡ record b { up_hits = 0; down_hits = 0 } =
            ground (arith, h, not_growing, steady) in
          subst (Paced p s b) (sym e) (unchanged refl refl)
    ]
  ]

  -- A round of the load balancer leaves the workers and their count alone, or it was kicked or the
  -- cooldown since the last adjustment was over, the condition to grow held, or that to shrink and
  -- not that to grow, its hits with this one reached the debounce count, and afterwards both
  -- counts of hits are 0 and the time of the adjustment is that of the round.
  pub round-Paced : Paced p s b (round p s b)
  unfolding round
  round-Paced = elim (Bool-cases s.kicked) [
    | inl kicked ↦ due-Paced (inl kicked) (ground (arith, kicked))
    | inr alone ↦ elim (Bool-cases (ltb s.now (b.last_adjust + p.cooldown))) [
      | inl cooling ↦
          let e : round p s b ≡ b = ground (arith, alone, cooling) in
          subst (Paced p s b) (sym e) (unchanged refl refl)
      | inr due ↦ due-Paced (inr due) (ground (arith, alone, due))
    ]
  ]
