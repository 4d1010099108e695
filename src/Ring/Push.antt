-- ===== src/Ring/Push.antt =====
-- `DoPush` on a ring that holds a queue, with room and without.
use mathlib.Core.Path.{ap₂, subst, ◌≡⟨◌⟩◌, ◌∎}
use native.Mathlib.Nat.{add-mod_right}
use cpp_mpmc_thread_pool.Base.{
  ℕ, suc, ◌+◌, ◌-◌, ◌%◌, ◌^◌, ◌<◌, ◌≡◌, refl, sym, ap, ◌∙◌, Option, some, List, [], ◌∷◌, ◌++◌,
  append_assoc, arith, length, get_elem?, set, length-append, set-append_length, eq→==, lt→ltb,
}
use cpp_mpmc_thread_pool.Base.Words.{add_size, is_zero-ptr_diff, is_negative-ptr_diff}
use cpp_mpmc_thread_pool.Ring.{Cell, Ring, full, cell_at, claim_push, do_push}
use cpp_mpmc_thread_pool.Ring.Window.{Window, Window-lookup, Window-set}
use cpp_mpmc_thread_pool.Ring.Repr.{
  full_cell, free_cell, filled, free, layout, Repr, InRange, length-filled, length-layout,
  filled-snoc, cell_at-mod, put_cell-mod, put_cell-Shape,
}

pub set-layout {ℓ} :
    {A : Type ℓ} (t : ℕ) (xs : List A) (x : A) (n : ℕ)
    → set (layout t xs (suc n)) (length xs) (full_cell (t + length xs) x)
      ≡ layout t (xs ++ x ∷ []) n
set-layout {A} t xs x n =
    set (layout t xs (suc n)) (length xs) new
    ≡⟨ ap (λ i. set (layout t xs (suc n)) i new) (sym (length-filled t xs)) ⟩
      set (layout t xs (suc n)) (length (filled t xs)) new
    ≡⟨ set-append_length (filled t xs) (free_cell (t + length xs)) rest new ⟩
      filled t xs ++ new ∷ rest
    ≡⟨ sym (append_assoc (filled t xs) (new ∷ []) rest) ⟩ (filled t xs ++ new ∷ []) ++ rest
    ≡⟨ ap (λ cs. cs ++ rest) (sym (filled-snoc t xs x)) ⟩ filled t (xs ++ x ∷ []) ++ rest
    ≡⟨ ap (λ u. filled t (xs ++ x ∷ []) ++ free u n) {x = suc (t + length xs)}
        {y = t + length (xs ++ x ∷ [])} (omega (arith, length-append xs (x ∷ []))) ⟩
      layout t (xs ++ x ∷ []) n ∎
  where
    new : Cell A
    new = full_cell (t + length xs) x

    rest : List (Cell A)
    rest = free (suc (t + length xs)) n

module _ {ℓ} {A : Type ℓ} (r : Ring A) (fuel : ℕ) (f : Option A)
    (small : r.producer_pos < 2 ^ 63) where
  -- The cell of the next ticket is free: the first try claims it.
  pub do_push-claims :
      cell_at r r.producer_pos ≡ some (free_cell r.producer_pos)
      → do_push (suc fuel) r f r.producer_pos
        ≡ some (claim_push r (free_cell r.producer_pos) f r.producer_pos)
  unfolding do_push
  do_push-claims head =
      let p = r.producer_pos in ground (arith, is_zero-ptr_diff p p small small, eq→== p p refl)

  -- It still carries an older sequence number: the ring counts as full.
  pub do_push-refuses :
      (c : Cell A)
      → cell_at r r.producer_pos ≡ some c
      → c.seq < r.producer_pos
      → do_push (suc fuel) r f r.producer_pos ≡ some (full, r)
  unfolding do_push
  do_push-refuses c head old =
      let p = r.producer_pos in
      ground (
        arith,
        is_zero-ptr_diff c.seq p (omega arith) small,
        is_negative-ptr_diff c.seq p (omega arith) small,
        lt→ltb c.seq p old,
      )

module _ {ℓ} {A : Type ℓ} {r : Ring A} {xs : List A} (v : Repr r xs) where
  next_cell :
      (n : ℕ)
      → r.capacity - length xs ≡ suc n
      → cell_at r r.producer_pos ≡ some (free_cell r.producer_pos)
  next_cell n e =
      cell_at-mod v.shape r.producer_pos
      ∙ ap (λ t. get_elem? r.buffer (t % r.capacity)) {x = r.producer_pos}
          {y = r.consumer_pos + length (filled r.consumer_pos xs)}
          (omega (arith, v.counted, length-filled r.consumer_pos xs))
      ∙ Window-lookup r.buffer r.capacity r.consumer_pos (filled r.consumer_pos xs)
          (free_cell (r.consumer_pos + length xs)) (free (suc (r.consumer_pos + length xs)) n)
          (rw e at v.cells)
      ∙ ap (λ t. some (free_cell t)) (sym v.counted)

  -- A ring with room: the first try claims the cell of the next ticket, which is free.
  pub do_push-room :
      (fuel : ℕ) (f : Option A)
      → InRange r
      → length xs < r.capacity
      → do_push (suc fuel) r f r.producer_pos
        ≡ some (claim_push r (free_cell r.producer_pos) f r.producer_pos)
  do_push-room fuel f small room =
      do_push-claims r fuel f (omega arith) (next_cell (r.capacity - length xs - 1) (omega arith))

  -- The claimed cell takes the element: it joins the queue at its end.
  pub claim_push-Repr :
      (x : A)
      → InRange r
      → length xs < r.capacity
      → Repr (claim_push r (free_cell r.producer_pos) (some x) r.producer_pos).1 (xs ++ x ∷ [])
  unfolding claim_push
  claim_push-Repr x small room = record {
    shape = put_cell-Shape v.shape r.producer_pos (add_size r.producer_pos 1) r.consumer_pos new;
    counted = omega (arith, v.counted, length-append xs (x ∷ []));
    fits = omega (arith, length-append xs (x ∷ []));
    cells =
        subst (λ b. Window b r.capacity r.consumer_pos (layout r.consumer_pos (xs ++ x ∷ []) left))
          (sym (put_cell-mod v.shape r.producer_pos new))
          (subst (Window written r.capacity r.consumer_pos) same_layout write);
  }
    where
      new : Cell A
      new = record { seq = add_size r.producer_pos 1; storage = some x }

      written : List (Cell A)
      written = set r.buffer (r.producer_pos % r.capacity) new

      left : ℕ
      left = r.capacity - length (xs ++ x ∷ [])

      more : r.capacity - length xs ≡ suc left
      more = omega (arith, length-append xs (x ∷ []))

      same_cell : new ≡ full_cell (r.consumer_pos + length xs) x
      same_cell = ground (arith, v.counted)

      before : List (Cell A)
      before = layout r.consumer_pos xs (r.capacity - length xs)

      write : Window written r.capacity r.consumer_pos (set before (length xs) new)
      write =
          Window-set r.buffer r.capacity r.producer_pos r.consumer_pos (length xs) new before
            v.counted v.sized (omega (arith, v.fits, all_cells)) (omega (arith, all_cells)) v.cells
        where
          all_cells : length before ≡ length xs + (r.capacity - length xs)
          all_cells = length-layout r.consumer_pos xs (r.capacity - length xs)

      same_layout : set before (length xs) new ≡ layout r.consumer_pos (xs ++ x ∷ []) left
      same_layout =
          ap₂ (λ n c. set (layout r.consumer_pos xs n) (length xs) c) more same_cell
          ∙ set-layout r.consumer_pos xs x left

  -- A full ring: the next cell still holds the element of the round before.
  pub do_push-full :
      (fuel : ℕ) (f : Option A) (x : A) (ys : List A)
      → InRange r
      → xs ≡ x ∷ ys
      → length xs ≡ r.capacity
      → do_push (suc fuel) r f r.producer_pos ≡ some (full, r)
  do_push-full fuel f x ys small e filled_up =
      do_push-refuses r fuel f (omega arith) (full_cell r.consumer_pos x)
        (cell_at-mod v.shape r.producer_pos
          ∙ ap (get_elem? r.buffer) (
              ap (λ (t : ℕ). t % r.capacity) {x = r.producer_pos} {y = r.consumer_pos + r.capacity}
                (omega (arith, v.counted))
              ∙ add-mod_right r.consumer_pos r.capacity)
          ∙ (rw e at v.cells).0)
        (omega (arith, v.counted, v.large))
