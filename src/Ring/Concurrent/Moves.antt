-- ===== src/Ring/Concurrent/Moves.antt =====
-- The steps that write to no cell: those that change a thread only, and the two claims.
use mathlib.Core.Path.{subst}
use native.Mathlib.Decide.{ℕ_discrete}
use cpp_mpmc_thread_pool.Base.{
  ℕ, zero, suc, ◌+◌, ◌<◌, ◌≡◌, ◌≢◌, refl, sym, ap, ◌∙◌, inl, inr, none, some, List, [], ◌∷◌, ◌++◌,
  arith, length, length-append, get_elem?,
}
use cpp_mpmc_thread_pool.Ring.{Cell, Ring}
use cpp_mpmc_thread_pool.Ring.Repr.{full_cell, free_cell}
use cpp_mpmc_thread_pool.Ring.Concurrent.{
  Pc, idle, push_load, push_claim, push_build, push_publish, pop_load, pop_claim, pop_move,
  pop_release, update,
}
use cpp_mpmc_thread_pool.Ring.Concurrent.Invariant.{look, Full, slot, Fine, Inv}
use cpp_mpmc_thread_pool.Ring.Concurrent.Cells.{
  some_injective, look_round, look_seq, Busy, slot-Busy,
}
use cpp_mpmc_thread_pool.Ring.Concurrent.Frame.{
  none_ne_some, update_self, update_all, update_alone, update-Held,
}

pub get_elem?-append_some {ℓ} :
    {A : Type ℓ} (xs ys : List A) (k : ℕ) {x : A}
    → get_elem? xs k ≡ some x
    → get_elem? (xs ++ ys) k ≡ some x
get_elem?-append_some [] ys k e = absurd (cc)
get_elem?-append_some (y ∷ xs) ys zero e = e
get_elem?-append_some (y ∷ xs) ys (suc k) e = get_elem?-append_some xs ys k e

get_elem?-snoc {ℓ} :
    {A : Type ℓ} (xs : List A) (x : A) → get_elem? (xs ++ x ∷ []) (length xs) ≡ some x
get_elem?-snoc [] x = refl
get_elem?-snoc (y ∷ xs) x = get_elem?-snoc xs x

module _ {A : Type 0} {r : Ring A} {pc : ℕ → Pc A} {xs : List A} (inv : Inv r pc xs) (i : ℕ)
    (unowned : slot r.capacity (pc i) ≡ none) where
  -- The thread works on no cell before.
  elsewhere : (j w : ℕ) → slot r.capacity (pc j) ≡ some w → i ≢ j
  elsewhere j w e same = none_ne_some w (sym unowned ∙ ap (λ k. slot r.capacity (pc k)) same ∙ e)

  pub goto-Inv : (q : Pc A) → slot r.capacity q ≡ none → Fine r xs q → Inv r (update pc i q) xs
  goto-Inv q none_now f = record {
    shape = inv.shape;
    behind = inv.behind;
    ahead = inv.ahead;
    logged = inv.logged;
    bounded = inv.bounded;
    fine = λ j. update_all pc i q (Fine r xs) j f (λ other. inv.fine j);
    alone =
        update_alone pc i q r.capacity inv.alone
          (λ j w e h. absurd (none_ne_some w (sym none_now ∙ e)));
    cells = λ t lo hi. elim (inv.cells t lo hi) [
      | inl (j, e) ↦ inl (update-Held pc i q r.capacity t j (elsewhere j t e) e)
      | inr rest ↦ inr rest
    ];
  }

  busy : (j w : ℕ) → slot r.capacity (pc j) ≡ some w → Busy r w
  busy j w e = slot-Busy xs inv.behind inv.ahead (pc j) w (inv.fine j) e

  -- A producer gets the next ticket.
  module _ (x : A) (room : r.producer_pos < r.consumer_pos + r.capacity)
      (free : look r r.producer_pos ≡ some (free_cell r.producer_pos)) where
    abbrev pushed : Ring A
    pushed = record r { producer_pos = suc r.producer_pos }

    abbrev logged : List A
    logged = xs ++ x ∷ []

    not_here :
        (at : ℕ) (c : Cell A)
        → look r at ≡ some c
        → c.seq ≡ suc at
        → r.producer_pos ≢ at + r.capacity
    not_here at c e h same =
        let g =
          look_seq r r.producer_pos (free_cell r.producer_pos) c free
            (ap (look r) same ∙ look_round r at ∙ e) in
        omega (arith, inv.shape.large)

    pushed-Full : (t : ℕ) → Full r xs t → Full pushed logged t
    pushed-Full t (y, claimed, full) = (y, get_elem?-append_some xs (x ∷ []) t claimed, full)

    pushed-Fine : (q : Pc A) → Fine r xs q → Fine pushed logged q
    pushed-Fine idle f = tt
    pushed-Fine (push_load y at) f = omega arith
    pushed-Fine (push_claim y at seq) f = (omega arith, omega arith, λ e h. absurd (omega arith))
    pushed-Fine (push_build y at) f =
        (f.0, omega arith, get_elem?-append_some xs (x ∷ []) at f.2, f.3)
    pushed-Fine (push_publish y at) f =
        (f.0, omega arith, get_elem?-append_some xs (x ∷ []) at f.2, f.3)
    pushed-Fine (pop_load at) f = f
    pushed-Fine (pop_claim at seq) f = (
      f.0,
      omega arith,
      λ e h. (omega (arith, (f.2 e h).0), pushed-Full r.consumer_pos (f.2 e h).1),
    )
    pushed-Fine (pop_move at) f =
        (f.0, omega (arith, not_here at (full_cell at f.2.0) f.2.2 refl), pushed-Full at f.2)
    pushed-Fine (pop_release at y) f = (
      f.0,
      omega (arith, not_here at (record { seq = suc at; storage = none }) f.3 refl),
      get_elem?-append_some xs (x ∷ []) at f.2,
      f.3,
    )

    pub push-Inv : Inv pushed (update pc i (push_build x r.producer_pos)) logged
    push-Inv = record {
      shape = record {
        width = inv.shape.width;
        power = inv.shape.power;
        large = inv.shape.large;
        masked = inv.shape.masked;
        sized = inv.shape.sized;
      };
      behind = omega (arith, inv.behind);
      ahead = room;
      logged = omega (arith, length-append xs (x ∷ []), inv.logged);
      bounded = λ k c e. omega (arith, inv.bounded k c e);
      fine = λ j.
          update_all pc i (push_build x r.producer_pos) (Fine pushed logged) j
            (
              inv.behind,
              omega arith,
              subst (λ k. get_elem? logged k ≡ some x) inv.logged (get_elem?-snoc xs x),
              free,
            )
            (λ other. pushed-Fine (pc j) (inv.fine j));
      alone =
          update_alone pc i (push_build x r.producer_pos) r.capacity inv.alone
            (λ j w e h. absurd (taken j w (some_injective r.producer_pos w e) h));
      cells = λ t lo hi. elim (ℕ_discrete r.producer_pos t) [
        | yes same ↦ inl (
          i,
          ap (slot r.capacity) (update_self pc i (push_build x r.producer_pos)) ∙ ap some same,
        )
        | no other ↦ elim (inv.cells t lo hi) [
          | inl (j, e) ↦
              inl
                (update-Held pc i (push_build x r.producer_pos) r.capacity t j (elsewhere j t e) e)
          | inr (inl (less, full)) ↦ inr (inl (omega arith, pushed-Full t full))
          | inr (inr (more, rest)) ↦ inr (inr (omega arith, rest))
        ]
      ];
    }
      where
        taken : (j w : ℕ) → r.producer_pos ≡ w → slot r.capacity (pc j) ≡ some w → ⊥
        taken j w same h =
            let b = busy j w h in
            let g =
              look_seq r r.producer_pos (free_cell r.producer_pos) b.cell free
                (ap (look r) same ∙ b.there) in
            elim b.number [
              | inl (n, less) ↦ omega arith
              | inr (n, more) ↦ omega (arith, inv.shape.large)
            ]

  -- A consumer gets the next ticket.
  module _ (left : r.consumer_pos < r.producer_pos) (found : Full r xs r.consumer_pos) where
    abbrev popped : Ring A
    popped = record r { consumer_pos = suc r.consumer_pos }

    not_first : (at : ℕ) (c : Cell A) → look r at ≡ some c → c.seq ≡ at → r.consumer_pos ≢ at
    not_first at c e h same =
        let g =
          look_seq r r.consumer_pos (full_cell r.consumer_pos found.0) c found.2
            (ap (look r) same ∙ e) in
        omega arith

    popped-Fine : (q : Pc A) → Fine r xs q → Fine popped xs q
    popped-Fine idle f = tt
    popped-Fine (push_load y at) f = f
    popped-Fine (push_claim y at seq) f =
        (f.0, f.1, λ e h. (omega (arith, (f.2 e h).0), (f.2 e h).1))
    popped-Fine (push_build y at) f =
        (omega (arith, not_first at (free_cell at) f.3 refl), f.1, f.2, f.3)
    popped-Fine (push_publish y at) f = (
      omega (arith, not_first at (record { seq = at; storage = some y }) f.3 refl),
      f.1,
      f.2,
      f.3,
    )
    popped-Fine (pop_load at) f = omega arith
    popped-Fine (pop_claim at seq) f = (omega arith, f.1, λ e h. absurd (omega arith))
    popped-Fine (pop_move at) f = (omega arith, f.1, f.2)
    popped-Fine (pop_release at y) f = (omega arith, f.1, f.2, f.3)

    pub pop-Inv : Inv popped (update pc i (pop_move r.consumer_pos)) xs
    pop-Inv = record {
      shape = record {
        width = inv.shape.width;
        power = inv.shape.power;
        large = inv.shape.large;
        masked = inv.shape.masked;
        sized = inv.shape.sized;
      };
      behind = left;
      ahead = omega (arith, inv.ahead);
      logged = inv.logged;
      bounded = inv.bounded;
      fine = λ j.
          update_all pc i (pop_move r.consumer_pos) (Fine popped xs) j
            (omega arith, inv.ahead, found) (λ other. popped-Fine (pc j) (inv.fine j));
      alone = update_alone pc i (pop_move r.consumer_pos) r.capacity inv.alone (λ j w e h.
          absurd
            (omega (arith, some_injective (r.consumer_pos + r.capacity) w e, (busy j w h).to)));
      cells = λ t lo hi. elim (ℕ_discrete (r.consumer_pos + r.capacity) t) [
        | yes same ↦
            inl
              (i, ap (slot r.capacity) (update_self pc i (pop_move r.consumer_pos)) ∙ ap some same)
        | no other ↦ elim (inv.cells t (omega arith) (omega arith)) [
          | inl (j, e) ↦
              inl (update-Held pc i (pop_move r.consumer_pos) r.capacity t j (elsewhere j t e) e)
          | inr rest ↦ inr rest
        ]
      ];
    }
