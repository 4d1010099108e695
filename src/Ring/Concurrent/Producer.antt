-- ===== src/Ring/Concurrent/Producer.antt =====
-- The steps of `DoPush`.
use cpp_mpmc_thread_pool.Base.{
  ℕ, suc, ◌+◌, ◌^◌, ◌<◌, ◌≡◌, refl, sym, ap, ◌∙◌, inl, inr, not, ◌&&◌, some, [], ◌∷◌, ◌++◌, arith,
  ltb, ◌==◌, Bool-cases, ==→eq,
}
use cpp_mpmc_thread_pool.Base.Words.{
  is_zero, is_negative, ptr_diff, is_zero-ptr_diff, is_negative-ptr_diff,
}
use cpp_mpmc_thread_pool.Ring.{Cell, cell_at}
use cpp_mpmc_thread_pool.Ring.Repr.{full_cell, free_cell, cell_at-mod}
use cpp_mpmc_thread_pool.Ring.Concurrent.{
  idle, push_load, push_claim, push_build, push_publish, Choice, System, update, goto, spurious,
  push_exchange, write, access,
}
use cpp_mpmc_thread_pool.Ring.Concurrent.Invariant.{look, slot, consuming, Fine}
use cpp_mpmc_thread_pool.Ring.Concurrent.Cells.{look-written_self}
use cpp_mpmc_thread_pool.Ring.Concurrent.Moves.{push-Inv}
use cpp_mpmc_thread_pool.Ring.Concurrent.Heads.{loaded, head_producer}
use cpp_mpmc_thread_pool.Ring.Concurrent.Returns.{AllClaimed-append, same-Returned}
use cpp_mpmc_thread_pool.Ring.Concurrent.Good.{Good, Next, goto-Next, producer-Next}

module _ {A : Type 0} (s : System A) (g : Good s)
    (small : suc s.ring.producer_pos + s.ring.capacity < 2 ^ 63) (i : ℕ) where
  pub push_claim-Next :
      (x : A) (at seq : ℕ) (c : Choice A)
      → s.pc i ≡ push_claim x at seq
      → Fine s.ring s.claimed (push_claim x at seq)
      → (t : System A) × (access s i (push_claim x at seq) c ≡ some t) × Next s t
  unfolding access push_exchange
  push_claim-Next x at seq c e f =
      let z : is_zero (ptr_diff seq at) ≡ (seq == at) =
        is_zero-ptr_diff seq at (omega arith) (omega arith) in
      let n : is_negative (ptr_diff seq at) ≡ ltb seq at =
        is_negative-ptr_diff seq at (omega arith) (omega arith) in
      let before = ap (slot s.ring.capacity) e in
      let old = ap consuming e in
      elim (Bool-cases (seq == at)) [
        | inl now ↦ elim (Bool-cases (s.ring.producer_pos == at && not (spurious c))) [
          | inl won ↦
              let here : s.ring.producer_pos ≡ at = ground (arith, ==→eq s.ring.producer_pos at) in
              let (room, free) = f.2 (==→eq seq at now) (sym here) in
              (
                record s {
                  ring = record s.ring { producer_pos = suc s.ring.producer_pos };
                  pc = update s.pc i (push_build x s.ring.producer_pos);
                  claimed = s.claimed ++ x ∷ [];
                },
                ground (arith, z, now, won, here),
                record {
                  good = record {
                    inv = push-Inv g.inv i before x room free;
                    returns =
                        same-Returned g.returns i (push_build x s.ring.producer_pos)
                          (s.claimed ++ x ∷ [])
                          (AllClaimed-append s.claimed (x ∷ []) s.returned g.returns.elements)
                          (sym old);
                  };
                  same_capacity = refl;
                  tickets = omega arith;
                },
              )
          | inr lost ↦ (
            goto s i (push_load x s.ring.producer_pos),
            ground (arith, z, now, lost),
            goto-Next s g i (push_load x s.ring.producer_pos) before old refl refl (omega arith),
          )
        ]
        | inr other ↦ elim (Bool-cases (ltb seq at)) [
          | inl behind ↦ (
            goto s i idle,
            ground (arith, z, n, other, behind),
            goto-Next s g i idle before old refl refl tt,
          )
          | inr ahead ↦ (
            goto s i (push_load x s.ring.producer_pos),
            ground (arith, z, n, other, ahead),
            goto-Next s g i (push_load x s.ring.producer_pos) before old refl refl (omega arith),
          )
        ]
      ]

  pub push_load-Next :
      (x : A) (at : ℕ) (c : Choice A)
      → s.pc i ≡ push_load x at
      → Fine s.ring s.claimed (push_load x at)
      → (t : System A) × (access s i (push_load x at) c ≡ some t) × Next s t
  unfolding access
  push_load-Next x at c e f =
      let (cell, there, read, low) = loaded g.inv at in
      (
        goto s i (push_claim x at cell.seq),
        ground (arith, read),
        goto-Next s g i (push_claim x at cell.seq) (ap (slot s.ring.capacity) e) (ap consuming e)
            refl refl
            (
              f,
              low,
              λ same now.
                  head_producer g.inv cell (ap (look s.ring) (sym now) ∙ there) (same ∙ now),
            ),
      )

  pub push_build-Next :
      (x : A) (at : ℕ) (c : Choice A)
      → s.pc i ≡ push_build x at
      → Fine s.ring s.claimed (push_build x at)
      → (t : System A) × (access s i (push_build x at) c ≡ some t) × Next s t
  unfolding access
  push_build-Next x at c e f =
      let new : Cell A = record { seq = at; storage = some x } in
      let read : cell_at s.ring at ≡ some (free_cell at) = cell_at-mod g.inv.shape at ∙ f.3 in
      (
        write s i at new (push_publish x at),
        ground (arith, read),
        producer-Next s g i at new (push_publish x at) (ap (slot s.ring.capacity) e)
            (ap consuming e) refl (omega arith)
            (f.0, f.1, f.2, look-written_self s.ring g.inv.shape at new) (inl refl),
      )

  pub push_publish-Next :
      (x : A) (at : ℕ) (c : Choice A)
      → s.pc i ≡ push_publish x at
      → Fine s.ring s.claimed (push_publish x at)
      → (t : System A) × (access s i (push_publish x at) c ≡ some t) × Next s t
  unfolding access
  push_publish-Next x at c e f =
      let new : Cell A = full_cell at x in
      let old : Cell A = record { seq = at; storage = some x } in
      let read : cell_at s.ring at ≡ some old = cell_at-mod g.inv.shape at ∙ f.3 in
      (
        write s i at new idle,
        ground (arith, read),
        producer-Next s g i at new idle (ap (slot s.ring.capacity) e) (ap consuming e) refl
            (omega arith) tt
            (inr (refl, inl (f.1, (x, f.2, look-written_self s.ring g.inv.shape at new)))),
      )
