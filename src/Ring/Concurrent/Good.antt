-- ===== src/Ring/Concurrent/Good.antt =====
-- A state that is reachable, and the step of one thread from it.
use mathlib.Core.Path.{subst}
use native.Mathlib.Nat.{add-mod_right}
use cpp_mpmc_thread_pool.Base.{
  ℕ, suc, ◌+◌, ◌≤◌, ◌≡◌, refl, sym, ap, ◌∙◌, ◌⊎◌, none, some, arith, set,
}
use cpp_mpmc_thread_pool.Ring.{Cell, put_cell}
use cpp_mpmc_thread_pool.Ring.Repr.{put_cell-mod}
use cpp_mpmc_thread_pool.Ring.Concurrent.{Pc, System, update, goto, write}
use cpp_mpmc_thread_pool.Ring.Concurrent.Invariant.{
  look, slot, consuming, Fine, Resting, Inv, Returned,
}
use cpp_mpmc_thread_pool.Ring.Concurrent.Cells.{look_round, written, look-written_self}
use cpp_mpmc_thread_pool.Ring.Concurrent.Frame.{write-Inv}
use cpp_mpmc_thread_pool.Ring.Concurrent.Moves.{goto-Inv}
use cpp_mpmc_thread_pool.Ring.Concurrent.Returns.{same-Returned}

pub record Good {A : Type 0} (s : System A) : Type 0 where
  pub inv : Inv s.ring s.pc s.claimed
  pub returns : Returned s.ring.consumer_pos s.pc s.claimed s.returned

-- A step hands out one ticket at most.
pub record Next {A : Type 0} (s t : System A) : Type 0 where
  pub good : Good t
  pub same_capacity : t.ring.capacity ≡ s.ring.capacity
  pub tickets : t.ring.producer_pos ≤ suc s.ring.producer_pos

module _ {A : Type 0} (s : System A) (g : Good s) (i : ℕ) where
  pub goto-Next :
      (q : Pc A)
      → slot s.ring.capacity (s.pc i) ≡ none
      → consuming (s.pc i) ≡ none
      → slot s.ring.capacity q ≡ none
      → consuming q ≡ none
      → Fine s.ring s.claimed q
      → Next s (goto s i q)
  goto-Next q before old after new f = record {
    good = record {
      inv = goto-Inv g.inv i before q after f;
      returns = same-Returned g.returns i q s.claimed g.returns.elements (new ∙ sym old);
    };
    same_capacity = refl;
    tickets = omega arith;
  }

  wrote :
      (at : ℕ) (c : Cell A) → record s.ring { buffer = put_cell s.ring at c } ≡ written s.ring at c
  wrote at c = ap (λ b. record s.ring { buffer = b }) (put_cell-mod g.inv.shape at c)

  pub wrote_ago :
      (at : ℕ) (c : Cell A)
      → record s.ring { buffer = put_cell s.ring at c } ≡ written s.ring (at + s.ring.capacity) c
  wrote_ago at c =
      wrote at c
      ∙ ap (λ k. record s.ring { buffer = set s.ring.buffer k c })
          (sym (add-mod_right at s.ring.capacity))

  -- A producer writes to its cell.
  pub producer-Next :
      (at : ℕ) (c : Cell A) (q : Pc A)
      → slot s.ring.capacity (s.pc i) ≡ some at
      → consuming (s.pc i) ≡ none
      → consuming q ≡ none
      → c.seq ≤ s.ring.producer_pos + s.ring.capacity
      → Fine (written s.ring at c) s.claimed q
      → (slot s.ring.capacity q ≡ some at)
        ⊎ ((slot s.ring.capacity q ≡ none) × Resting (written s.ring at c) s.claimed at)
      → Next s (write s i at c q)
  producer-Next at c q mine old new small f next = record {
    good = record {
      inv =
          subst (λ r. Inv r (update s.pc i q) s.claimed) (sym (wrote at c))
            (write-Inv g.inv i at mine c q small f next);
      returns = same-Returned g.returns i q s.claimed g.returns.elements (new ∙ sym old);
    };
    same_capacity = refl;
    tickets = omega arith;
  }

  -- A consumer writes to its cell, which is that of a ticket one round later.
  pub consumer-Inv :
      (at : ℕ) (c : Cell A) (q : Pc A)
      → slot s.ring.capacity (s.pc i) ≡ some (at + s.ring.capacity)
      → c.seq ≤ s.ring.producer_pos + s.ring.capacity
      → Fine (written s.ring (at + s.ring.capacity) c) s.claimed q
      → (slot s.ring.capacity q ≡ some (at + s.ring.capacity))
        ⊎ ((slot s.ring.capacity q ≡ none)
            × Resting (written s.ring (at + s.ring.capacity) c) s.claimed (at + s.ring.capacity))
      → Inv (record s.ring { buffer = put_cell s.ring at c }) (update s.pc i q) s.claimed
  consumer-Inv at c q mine small f next =
      subst (λ r. Inv r (update s.pc i q) s.claimed) (sym (wrote_ago at c))
        (write-Inv g.inv i (at + s.ring.capacity) mine c q small f next)

  -- What was written one round ahead is seen here.
  pub seen : (at : ℕ) (c : Cell A) → look (written s.ring (at + s.ring.capacity) c) at ≡ some c
  seen at c =
      sym (look_round (written s.ring (at + s.ring.capacity) c) at)
      ∙ look-written_self s.ring g.inv.shape (at + s.ring.capacity) c
