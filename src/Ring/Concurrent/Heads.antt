-- ===== src/Ring/Concurrent/Heads.antt =====
-- What a thread learns from the sequence number that it loads.
use native.Mathlib.Nat.{mod-lt}
use native.Mathlib.Decide.{dec_lt}
use cpp_mpmc_thread_pool.Base.{
  ℕ, zero, suc, ◌+◌, ◌%◌, ◌≤◌, ◌<◌, ◌≡◌, refl, sym, ap, ◌∙◌, inl, inr, some, List, [], ◌∷◌, arith,
  length, get_elem?,
}
use cpp_mpmc_thread_pool.Ring.{Cell, Ring, cell_at}
use cpp_mpmc_thread_pool.Ring.Repr.{full_cell, free_cell, cell_at-mod}
use cpp_mpmc_thread_pool.Ring.Concurrent.{Pc}
use cpp_mpmc_thread_pool.Ring.Concurrent.Invariant.{look, Full, slot, Inv}
use cpp_mpmc_thread_pool.Ring.Concurrent.Cells.{look_round, look_seq, Busy, slot-Busy}

get_elem?-lt {ℓ} :
    {A : Type ℓ} (xs : List A) (k : ℕ) → k < length xs → (x : A) × (get_elem? xs k ≡ some x)
get_elem?-lt [] k h = absurd (omega arith)
get_elem?-lt (x ∷ xs) zero h = (x, refl)
get_elem?-lt (x ∷ xs) (suc k) h = get_elem?-lt xs k (omega arith)

module _ {A : Type 0} {r : Ring A} {pc : ℕ → Pc A} {xs : List A} (inv : Inv r pc xs) where
  -- Every ticket has a cell, with a number that is not far ahead.
  pub loaded :
      (at : ℕ)
      → (c : Cell A) × (look r at ≡ some c)
        × (cell_at r at ≡ some c)
        × (c.seq ≤ r.producer_pos + r.capacity)
  loaded at =
      let (c, e) = get_elem?-lt r.buffer (at % r.capacity) (
        omega (
          arith,
          inv.shape.sized,
          inv.shape.large,
          mod-lt at {m = r.capacity} (omega (arith, inv.shape.large)),
        )) in
      (c, e, cell_at-mod inv.shape at ∙ e, inv.bounded (at % r.capacity) c e)

  pub held-Busy : (t : ℕ) (i : ℕ) → slot r.capacity (pc i) ≡ some t → Busy r t
  held-Busy t i e = slot-Busy xs inv.behind inv.ahead (pc i) t (inv.fine i) e

  -- The window is full: the next ticket has the cell of the first one, which carries no number for it.
  no_room :
      (c : Cell A)
      → look r r.producer_pos ≡ some c
      → c.seq ≡ r.producer_pos
      → r.producer_pos ≡ r.consumer_pos + r.capacity
      → ⊥
  no_room c e same full_up =
      let here : look r r.consumer_pos ≡ some c =
        sym (look_round r r.consumer_pos) ∙ ap (look r) (sym full_up) ∙ e in
      elim (inv.cells r.consumer_pos (omega arith) (omega (arith, inv.shape.large))) [
        | inl (i, h) ↦
            let b = held-Busy r.consumer_pos i h in
            let g = look_seq r r.consumer_pos c b.cell here b.there in
            elim b.number [
              | inl (n, less) ↦ omega (arith, inv.shape.large)
              | inr (n, more) ↦ omega (arith, inv.shape.large)
            ]
        | inr (inl (less, found)) ↦ omega (
          arith,
          inv.shape.large,
          look_seq r r.consumer_pos c (full_cell r.consumer_pos found.0) here found.2,
        )
        | inr (inr (more, free)) ↦ omega (arith, inv.shape.large)
      ]

  -- The next producer's cell carries its number: it is free.
  pub head_producer :
      (c : Cell A)
      → look r r.producer_pos ≡ some c
      → c.seq ≡ r.producer_pos
      → (r.producer_pos < r.consumer_pos + r.capacity)
        × (look r r.producer_pos ≡ some (free_cell r.producer_pos))
  head_producer c e same = elim (dec_lt r.producer_pos (r.consumer_pos + r.capacity)) [
    | no full_up ↦ absurd (no_room c e same (omega (arith, inv.ahead)))
    | yes room ↦ elim (inv.cells r.producer_pos inv.behind room) [
      | inl (i, h) ↦
          let b = held-Busy r.producer_pos i h in
          let g = look_seq r r.producer_pos c b.cell e b.there in
          absurd (elim b.number [
            | inl (n, less) ↦ omega arith
            | inr (n, more) ↦ omega (arith, inv.shape.large)
          ])
      | inr (inl (less, found)) ↦ absurd (omega arith)
      | inr (inr (more, free)) ↦ (room, free)
    ]
  ]

  -- The next consumer's cell carries its number and one: it is full.
  pub head_consumer :
      (c : Cell A)
      → look r r.consumer_pos ≡ some c
      → c.seq ≡ suc r.consumer_pos
      → (r.consumer_pos < r.producer_pos) × Full r xs r.consumer_pos
  head_consumer c e same =
      elim (inv.cells r.consumer_pos (omega arith) (omega (arith, inv.shape.large))) [
        | inl (i, h) ↦
            let b = held-Busy r.consumer_pos i h in
            let g = look_seq r r.consumer_pos c b.cell e b.there in
            absurd (elim b.number [
              | inl (n, less) ↦ omega arith
              | inr (n, more) ↦ omega (arith, inv.shape.large)
            ])
        | inr (inl (less, found)) ↦ (less, found)
        | inr (inr (more, free)) ↦
            absurd (omega (arith, look_seq r r.consumer_pos c (free_cell r.consumer_pos) e free))
      ]
