-- ===== src/Ring/Concurrent/Consumer.antt =====
-- The steps of `TryPop`.
use cpp_mpmc_thread_pool.Base.{
  ℕ, suc, ◌+◌, ◌^◌, ◌≤◌, ◌<◌, ◌≡◌, refl, sym, ap, ◌∙◌, inl, inr, not, ◌&&◌, none, some, ◌∷◌, arith,
  ltb, ◌==◌, Bool-cases, ==→eq,
}
use cpp_mpmc_thread_pool.Base.Words.{
  add_size, is_zero, is_negative, ptr_diff, is_zero-ptr_diff, is_negative-ptr_diff,
}
use cpp_mpmc_thread_pool.Ring.{Cell, cell_at}
use cpp_mpmc_thread_pool.Ring.Repr.{full_cell, free_cell, cell_at-mod}
use cpp_mpmc_thread_pool.Ring.Concurrent.{
  Pc, idle, push_load, push_claim, push_build, push_publish, pop_load, pop_claim, pop_move,
  pop_release, Choice, System, update, goto, spurious, pop_exchange, write, access,
}
use cpp_mpmc_thread_pool.Ring.Concurrent.Invariant.{look, slot, consuming, Fine}
use cpp_mpmc_thread_pool.Ring.Concurrent.Cells.{some_injective, look-written_self}
use cpp_mpmc_thread_pool.Ring.Concurrent.Moves.{pop-Inv}
use cpp_mpmc_thread_pool.Ring.Concurrent.Heads.{loaded, head_consumer}
use cpp_mpmc_thread_pool.Ring.Concurrent.Returns.{same-Returned, claim-Returned, return-Returned}
use cpp_mpmc_thread_pool.Ring.Concurrent.Good.{Good, Next, goto-Next, consumer-Inv, seen}

consuming-slot :
    {A : Type 0} (cap : ℕ) (q : Pc A) (t : ℕ) → consuming q ≡ some t → slot cap q ≡ some (t + cap)
consuming-slot cap idle t e = absurd (cc)
consuming-slot cap (push_load x at) t e = absurd (cc)
consuming-slot cap (push_claim x at seq) t e = absurd (cc)
consuming-slot cap (push_build x at) t e = absurd (cc)
consuming-slot cap (push_publish x at) t e = absurd (cc)
consuming-slot cap (pop_load at) t e = absurd (cc)
consuming-slot cap (pop_claim at seq) t e = absurd (cc)
consuming-slot cap (pop_move at) t e = ap (λ k. some (k + cap)) (some_injective at t e)
consuming-slot cap (pop_release at x) t e = ap (λ k. some (k + cap)) (some_injective at t e)

module _ {A : Type 0} (s : System A) (g : Good s)
    (small : suc s.ring.producer_pos + s.ring.capacity < 2 ^ 63) (i : ℕ) where
  pub pop_claim-Next :
      (at seq : ℕ) (c : Choice A)
      → s.pc i ≡ pop_claim at seq
      → Fine s.ring s.claimed (pop_claim at seq)
      → (t : System A) × (access s i (pop_claim at seq) c ≡ some t) × Next s t
  unfolding access pop_exchange
  pop_claim-Next at seq c e f =
      let below : at ≤ s.ring.producer_pos = omega (arith, g.inv.behind) in
      let add : add_size at 1 ≡ suc at = omega arith in
      let z : is_zero (ptr_diff seq (add_size at 1)) ≡ (seq == suc at) =
        ap (λ k. is_zero (ptr_diff seq k)) add
        ∙ is_zero-ptr_diff seq (suc at) (omega arith) (omega arith) in
      let n : is_negative (ptr_diff seq (add_size at 1)) ≡ ltb seq (suc at) =
        ap (λ k. is_negative (ptr_diff seq k)) add
        ∙ is_negative-ptr_diff seq (suc at) (omega arith) (omega arith) in
      let before = ap (slot s.ring.capacity) e in
      let old = ap consuming e in
      elim (Bool-cases (seq == suc at)) [
        | inl now ↦ elim (Bool-cases (s.ring.consumer_pos == at && not (spurious c))) [
          | inl won ↦
              let here : s.ring.consumer_pos ≡ at = ground (arith, ==→eq s.ring.consumer_pos at) in
              let (left, found) = f.2 (==→eq seq (suc at) now) (sym here) in
              (
                record s {
                  ring = record s.ring { consumer_pos = suc s.ring.consumer_pos };
                  pc = update s.pc i (pop_move s.ring.consumer_pos);
                },
                ground (arith, z, now, won, here),
                record {
                  good = record {
                    inv = pop-Inv g.inv i before left found;
                    returns = claim-Returned g.returns i (pop_move s.ring.consumer_pos) old refl;
                  };
                  same_capacity = refl;
                  tickets = omega arith;
                },
              )
          | inr lost ↦ (
            goto s i (pop_load s.ring.consumer_pos),
            ground (arith, z, now, lost),
            goto-Next s g i (pop_load s.ring.consumer_pos) before old refl refl (omega arith),
          )
        ]
        | inr other ↦ elim (Bool-cases (ltb seq (suc at))) [
          | inl behind ↦ (
            goto s i idle,
            ground (arith, z, n, other, behind),
            goto-Next s g i idle before old refl refl tt,
          )
          | inr ahead ↦ (
            goto s i (pop_load s.ring.consumer_pos),
            ground (arith, z, n, other, ahead),
            goto-Next s g i (pop_load s.ring.consumer_pos) before old refl refl (omega arith),
          )
        ]
      ]

  pub pop_load-Next :
      (at : ℕ) (c : Choice A)
      → s.pc i ≡ pop_load at
      → Fine s.ring s.claimed (pop_load at)
      → (t : System A) × (access s i (pop_load at) c ≡ some t) × Next s t
  unfolding access
  pop_load-Next at c e f =
      let (cell, there, read, low) = loaded g.inv at in
      (
        goto s i (pop_claim at cell.seq),
        ground (arith, read),
        goto-Next s g i (pop_claim at cell.seq) (ap (slot s.ring.capacity) e) (ap consuming e) refl
            refl
            (
              f,
              low,
              λ same now.
                  head_consumer g.inv cell (ap (look s.ring) (sym now) ∙ there) (same ∙ ap suc now),
            ),
      )

  pub pop_move-Next :
      (at : ℕ) (c : Choice A)
      → s.pc i ≡ pop_move at
      → Fine s.ring s.claimed (pop_move at)
      → (t : System A) × (access s i (pop_move at) c ≡ some t) × Next s t
  unfolding access
  pop_move-Next at c e f =
      let (x, claimed, full) = f.2 in
      let new : Cell A = record { seq = suc at; storage = none } in
      let read : cell_at s.ring at ≡ some (full_cell at x) = cell_at-mod g.inv.shape at ∙ full in
      (
        write s i at new (pop_release at x),
        ground (arith, read),
        record {
          good = record {
            inv =
                consumer-Inv s g i at new (pop_release at x) (ap (slot s.ring.capacity) e)
                  (omega (arith, g.inv.behind)) (f.0, f.1, claimed, seen s g i at new) (inl refl);
            returns =
                same-Returned g.returns i (pop_release at x) s.claimed g.returns.elements
                  (sym (ap consuming e));
          };
          same_capacity = refl;
          tickets = omega arith;
        },
      )

  pub pop_release-Next :
      (at : ℕ) (x : A) (c : Choice A)
      → s.pc i ≡ pop_release at x
      → Fine s.ring s.claimed (pop_release at x)
      → (t : System A) × (access s i (pop_release at x) c ≡ some t) × Next s t
  unfolding access
  pop_release-Next at x c e f =
      let new : Cell A = free_cell (at + s.ring.capacity) in
      let old : Cell A = record { seq = suc at; storage = none } in
      let read : cell_at s.ring at ≡ some old = cell_at-mod g.inv.shape at ∙ f.3 in
      let mine = ap (slot s.ring.capacity) e in
      (
        record (write s i at new idle) { returned = (at, x) ∷ s.returned },
        ground (arith, read),
        record {
          good = record {
            inv = consumer-Inv s g i at new idle mine (omega (arith, g.inv.behind)) tt (
                inr (
                  refl,
                  inr (f.1, look-written_self s.ring g.inv.shape (at + s.ring.capacity) new),
                ));
            returns = return-Returned g.returns i idle at x (ap consuming e) refl f.0 f.2 (λ j h.
                g.inv.alone i j (at + s.ring.capacity) mine
                  (consuming-slot s.ring.capacity (s.pc j) at h));
          };
          same_capacity = refl;
          tickets = omega arith;
        },
      )
