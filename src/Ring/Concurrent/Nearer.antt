-- ===== src/Ring/Concurrent/Nearer.antt =====
-- The steps of `DoPush` and of `TryPop` bring a thread nearer to the end of its call.
use cpp_mpmc_thread_pool.Base.{
  ℕ, suc, ◌+◌, ◌-◌, ◌^◌, ◌≤◌, ◌<◌, ◌≡◌, refl, sym, ap, ◌∙◌, ◌⊎◌, inl, inr, false, none, some, [],
  ◌∷◌, ◌++◌, arith, ltb, ◌==◌, Bool-cases, ==→eq, eq→==,
}
use cpp_mpmc_thread_pool.Base.Words.{
  add_size, is_zero, is_negative, ptr_diff, is_zero-ptr_diff, is_negative-ptr_diff,
}
use cpp_mpmc_thread_pool.Ring.{Cell, cell_at, put_cell}
use cpp_mpmc_thread_pool.Ring.Repr.{full_cell, free_cell, cell_at-mod}
use cpp_mpmc_thread_pool.Ring.Concurrent.{
  Pc, idle, push_load, push_claim, push_build, push_publish, pop_load, pop_claim, pop_move,
  pop_release, System, update, goto, push_exchange, pop_exchange, write, access,
}
use cpp_mpmc_thread_pool.Ring.Concurrent.Invariant.{look, Fine}
use cpp_mpmc_thread_pool.Ring.Concurrent.Heads.{loaded}
use cpp_mpmc_thread_pool.Ring.Concurrent.Good.{Good}
use cpp_mpmc_thread_pool.Ring.Concurrent.Rank.{producer_seq, consumer_seq, rank, Nearer, goto-rank}

module _ {A : Type 0} (s : System A) (g : Good s)
    (small : suc s.ring.producer_pos + s.ring.capacity < 2 ^ 63) (i : ℕ) where
  rank_load : (x : A) → rank s.ring (push_load x s.ring.producer_pos) ≤ 4
  rank_load x = ground (arith, eq→== s.ring.producer_pos s.ring.producer_pos refl)

  stale_claim :
      (x : A) (at seq : ℕ)
      → (s.ring.producer_pos == at ≡ false) ⊎ ((seq == at ≡ false) × (ltb seq at ≡ false))
      → rank s.ring (push_claim x at seq) ≡ 5
  stale_claim x at seq (inl e) = ground arith
  stale_claim x at seq (inr e) = ground arith

  pub push_load-Nearer : (x : A) (at : ℕ) → Nearer s i (push_load x at)
  unfolding access
  push_load-Nearer x at =
      let (cell, there, read, low) = loaded g.inv at in
      (
        goto s i (push_claim x at cell.seq),
        ground (arith, read),
        goto-rank s i s.ring (rank s.ring (push_load x at) - 1) (push_claim x at cell.seq)
            (elim (Bool-cases (at == s.ring.producer_pos)) [
              | inl now ↦
                  let same = ==→eq at s.ring.producer_pos now in
                  let fresh = producer_seq g.inv cell (ap (look s.ring) (sym same) ∙ there) in
                  ground (arith, now, fresh, same)
              | inr stale ↦ ground arith
            ]),
      )

  pub push_claim-Nearer :
      (x : A) (at seq : ℕ)
      → Fine s.ring s.claimed (push_claim x at seq)
      → Nearer s i (push_claim x at seq)
  unfolding access push_exchange
  push_claim-Nearer x at seq f =
      let z : is_zero (ptr_diff seq at) ≡ (seq == at) =
        is_zero-ptr_diff seq at (omega arith) (omega arith) in
      let n : is_negative (ptr_diff seq at) ≡ ltb seq at =
        is_negative-ptr_diff seq at (omega arith) (omega arith) in
      elim (Bool-cases (seq == at)) [
        | inl now ↦ elim (Bool-cases (s.ring.producer_pos == at)) [
          | inl won ↦ (
            record s {
              ring = record s.ring { producer_pos = add_size at 1 };
              pc = update s.pc i (push_build x at);
              claimed = s.claimed ++ x ∷ [];
            },
            ground (arith, z, now, won),
            goto-rank s i (record s.ring { producer_pos = add_size at 1 })
                (rank s.ring (push_claim x at seq) - 1) (push_build x at) (ground arith),
          )
          | inr lost ↦ (
            goto s i (push_load x s.ring.producer_pos),
            ground (arith, z, now, lost),
            goto-rank s i s.ring (rank s.ring (push_claim x at seq) - 1)
                (push_load x s.ring.producer_pos)
                (omega (arith, rank_load x, stale_claim x at seq (inl lost))),
          )
        ]
        | inr other ↦ elim (Bool-cases (ltb seq at)) [
          | inl behind ↦ (
            goto s i idle,
            ground (arith, z, n, other, behind),
            goto-rank s i s.ring (rank s.ring (push_claim x at seq) - 1) idle (omega arith),
          )
          | inr ahead ↦ (
            goto s i (push_load x s.ring.producer_pos),
            ground (arith, z, n, other, ahead),
            goto-rank s i s.ring (rank s.ring (push_claim x at seq) - 1)
                (push_load x s.ring.producer_pos)
                (omega (arith, rank_load x, stale_claim x at seq (inr (other, ahead)))),
          )
        ]
      ]

  pub push_build-Nearer :
      (x : A) (at : ℕ) → Fine s.ring s.claimed (push_build x at) → Nearer s i (push_build x at)
  unfolding access
  push_build-Nearer x at f =
      let read : cell_at s.ring at ≡ some (free_cell at) = cell_at-mod g.inv.shape at ∙ f.3 in
      let new : Cell A = record { seq = at; storage = some x } in
      (
        write s i at new (push_publish x at),
        ground (arith, read),
        goto-rank s i (record s.ring { buffer = put_cell s.ring at new }) 1 (push_publish x at)
            (omega arith),
      )

  pub push_publish-Nearer : (x : A) (at : ℕ) → Nearer s i (push_publish x at)
  unfolding access
  push_publish-Nearer x at =
      let (cell, there, read, low) = loaded g.inv at in
      let new : Cell A = record cell { seq = add_size at 1 } in
      (
        write s i at new idle,
        ground (arith, read),
        goto-rank s i (record s.ring { buffer = put_cell s.ring at new }) 0 idle (omega arith),
      )

  rank_pop_load : rank s.ring (pop_load s.ring.consumer_pos) ≤ 4
  rank_pop_load = ground (arith, eq→== s.ring.consumer_pos s.ring.consumer_pos refl)

  stale_pop_claim :
      (at seq : ℕ)
      → (s.ring.consumer_pos == at ≡ false) ⊎ ((seq == suc at ≡ false) × (ltb seq (suc at) ≡ false))
      → rank s.ring (pop_claim at seq) ≡ 5
  stale_pop_claim at seq (inl e) = ground arith
  stale_pop_claim at seq (inr e) = ground arith

  pub pop_load-Nearer : (at : ℕ) → Nearer s i (pop_load at)
  unfolding access
  pop_load-Nearer at =
      let (cell, there, read, low) = loaded g.inv at in
      (
        goto s i (pop_claim at cell.seq),
        ground (arith, read),
        goto-rank s i s.ring (rank s.ring (pop_load at) - 1) (pop_claim at cell.seq)
            (elim (Bool-cases (at == s.ring.consumer_pos)) [
              | inl now ↦
                  let same = ==→eq at s.ring.consumer_pos now in
                  let fresh = consumer_seq g.inv cell (ap (look s.ring) (sym same) ∙ there) in
                  ground (arith, now, fresh, same)
              | inr stale ↦ ground arith
            ]),
      )

  pub pop_claim-Nearer :
      (at seq : ℕ) → Fine s.ring s.claimed (pop_claim at seq) → Nearer s i (pop_claim at seq)
  unfolding access pop_exchange
  pop_claim-Nearer at seq f =
      let below : at ≤ s.ring.producer_pos = omega (arith, g.inv.behind) in
      let add : add_size at 1 ≡ suc at = omega arith in
      let z : is_zero (ptr_diff seq (add_size at 1)) ≡ (seq == suc at) =
        ap (λ k. is_zero (ptr_diff seq k)) add
        ∙ is_zero-ptr_diff seq (suc at) (omega arith) (omega arith) in
      let n : is_negative (ptr_diff seq (add_size at 1)) ≡ ltb seq (suc at) =
        ap (λ k. is_negative (ptr_diff seq k)) add
        ∙ is_negative-ptr_diff seq (suc at) (omega arith) (omega arith) in
      elim (Bool-cases (seq == suc at)) [
        | inl now ↦ elim (Bool-cases (s.ring.consumer_pos == at)) [
          | inl won ↦ (
            record s {
              ring = record s.ring { consumer_pos = add_size at 1 };
              pc = update s.pc i (pop_move at);
            },
            ground (arith, z, now, won),
            goto-rank s i (record s.ring { consumer_pos = add_size at 1 })
                (rank s.ring (pop_claim at seq) - 1) (pop_move at) (ground arith),
          )
          | inr lost ↦ (
            goto s i (pop_load s.ring.consumer_pos),
            ground (arith, z, now, lost),
            goto-rank s i s.ring (rank s.ring (pop_claim at seq) - 1) (pop_load s.ring.consumer_pos)
                (omega (arith, rank_pop_load, stale_pop_claim at seq (inl lost))),
          )
        ]
        | inr other ↦ elim (Bool-cases (ltb seq (suc at))) [
          | inl behind ↦ (
            goto s i idle,
            ground (arith, z, n, other, behind),
            goto-rank s i s.ring (rank s.ring (pop_claim at seq) - 1) idle (omega arith),
          )
          | inr ahead ↦ (
            goto s i (pop_load s.ring.consumer_pos),
            ground (arith, z, n, other, ahead),
            goto-rank s i s.ring (rank s.ring (pop_claim at seq) - 1) (pop_load s.ring.consumer_pos)
                (omega (arith, rank_pop_load, stale_pop_claim at seq (inr (other, ahead)))),
          )
        ]
      ]

  pub pop_move-Nearer : (at : ℕ) → Fine s.ring s.claimed (pop_move at) → Nearer s i (pop_move at)
  unfolding access
  pop_move-Nearer at f =
      let (x, claimed, full) = f.2 in
      let read : cell_at s.ring at ≡ some (full_cell at x) = cell_at-mod g.inv.shape at ∙ full in
      let new : Cell A = record { seq = suc at; storage = none } in
      (
        write s i at new (pop_release at x),
        ground (arith, read),
        goto-rank s i (record s.ring { buffer = put_cell s.ring at new }) 1 (pop_release at x)
            (omega arith),
      )

  pub pop_release-Nearer : (at : ℕ) (x : A) → Nearer s i (pop_release at x)
  unfolding access
  pop_release-Nearer at x =
      let (cell, there, read, low) = loaded g.inv at in
      let new : Cell A = record cell { seq = add_size at s.ring.capacity } in
      (
        record (write s i at new idle) { returned = (at, x) ∷ s.returned },
        ground (arith, read),
        goto-rank s i (record s.ring { buffer = put_cell s.ring at new }) 0 idle (omega arith),
      )

  pub at-Nearer : (q : Pc A) → s.pc i ≡ q → Fine s.ring s.claimed q → Nearer s i q
  unfolding access
  at-Nearer idle e f = (s, refl, omega (arith, ap (rank s.ring) e))
  at-Nearer (push_load x at) e f = push_load-Nearer x at
  at-Nearer (push_claim x at seq) e f = push_claim-Nearer x at seq f
  at-Nearer (push_build x at) e f = push_build-Nearer x at f
  at-Nearer (push_publish x at) e f = push_publish-Nearer x at
  at-Nearer (pop_load at) e f = pop_load-Nearer at
  at-Nearer (pop_claim at seq) e f = pop_claim-Nearer at seq f
  at-Nearer (pop_move at) e f = pop_move-Nearer at f
  at-Nearer (pop_release at x) e f = pop_release-Nearer at x
