-- ===== src/Ring/Pop.antt =====
-- `TryPop` and `TryPopConsume` on a ring that holds a queue.
use mathlib.Core.Path.{subst, ◌≡⟨◌⟩◌, ◌∎}
use cpp_mpmc_thread_pool.Base.{
  ℕ, suc, ◌+◌, ◌-◌, ◌%◌, ◌^◌, ◌<◌, ◌≡◌, refl, sym, ap, ◌∙◌, none, some, List, [], ◌∷◌, ◌++◌,
  append_assoc, arith, length, set, eq→==, lt→ltb,
}
use cpp_mpmc_thread_pool.Base.Words.{add_size, is_zero-ptr_diff, is_negative-ptr_diff}
use cpp_mpmc_thread_pool.Ring.{Cell, Ring, cell_at, do_pop, release_cell}
use cpp_mpmc_thread_pool.Ring.Window.{Window, Window-set, Window-rotate}
use cpp_mpmc_thread_pool.Ring.Repr.{
  full_cell, free_cell, filled, free, layout, Repr, InRange, length-layout, free-snoc, cell_at-mod,
  put_cell-mod, put_cell-Shape,
}

rotate-layout {ℓ} :
    {A : Type ℓ} (t : ℕ) (xs : List A) (n last : ℕ)
    → last ≡ suc t + length xs + n
    → layout (suc t) xs n ++ free_cell last ∷ [] ≡ layout (suc t) xs (suc n)
rotate-layout {A} t xs n last e =
    layout (suc t) xs n ++ free_cell last ∷ []
    ≡⟨ append_assoc (filled (suc t) xs) (free (suc t + length xs) n) (free_cell last ∷ []) ⟩
      filled (suc t) xs ++ (free (suc t + length xs) n ++ free_cell last ∷ [])
    ≡⟨ ap (λ u. filled (suc t) xs ++ (free (suc t + length xs) n ++ free_cell u ∷ [])) e ⟩
      filled (suc t) xs ++ (free (suc t + length xs) n ++ free_cell (suc t + length xs + n) ∷ [])
    ≡⟨ ap (◌++◌ (filled (suc t) xs)) (sym (free-snoc A (suc t + length xs) n)) ⟩
      layout (suc t) xs (suc n) ∎

module _ {ℓ κ} {A : Type ℓ} {B : Type κ} (r : Ring A) where
  -- The next cell has not been written in this round: the ring counts as empty.
  pub do_pop-refuses :
      (fuel : ℕ) (take_out : A → Ring A → ℕ → B) (missing : B)
      → cell_at r r.consumer_pos ≡ some (free_cell r.consumer_pos)
      → suc r.consumer_pos < 2 ^ 63
      → do_pop (suc fuel) r take_out missing r.consumer_pos ≡ some missing
  unfolding do_pop
  do_pop-refuses fuel take_out missing head small =
      let c = r.consumer_pos in
      let next : add_size c 1 ≡ suc c = omega arith in
      ground (
        arith,
        next,
        is_zero-ptr_diff c (suc c) (omega arith) small,
        is_negative-ptr_diff c (suc c) (omega arith) small,
        lt→ltb c (suc c) (omega arith),
      )

module _ {ℓ κ} {A : Type ℓ} {B : Type κ} {r : Ring A} where
  -- The oldest element is handed over on the first try.
  pub do_pop-cons :
      (fuel : ℕ) (take_out : A → Ring A → ℕ → B) (missing : B) (x : A) (xs : List A)
      → Repr r (x ∷ xs)
      → InRange r
      → do_pop (suc fuel) r take_out missing r.consumer_pos ≡ some (take_out x r r.consumer_pos)
  unfolding do_pop
  do_pop-cons fuel take_out missing x xs v small =
      let c = r.consumer_pos in
      let head : cell_at r c ≡ some (full_cell c x) = cell_at-mod v.shape c ∙ v.cells.0 in
      let next : add_size c 1 ≡ suc c = omega (arith, v.counted) in
      ground (
        arith,
        head,
        next,
        is_zero-ptr_diff (suc c) (suc c) (omega (arith, v.counted)) (omega (arith, v.counted)),
        eq→== c c refl,
        eq→== (suc c) (suc c) refl,
      )

  pub do_pop-nil :
      (fuel : ℕ) (take_out : A → Ring A → ℕ → B) (missing : B)
      → Repr r []
      → InRange r
      → do_pop (suc fuel) r take_out missing r.consumer_pos ≡ some missing
  do_pop-nil fuel take_out missing v small =
      let c = r.consumer_pos in
      let more : r.capacity - 0 ≡ suc (r.capacity - 1) = omega (arith, v.large) in
      do_pop-refuses r fuel take_out missing
        (cell_at-mod v.shape c
          ∙ (subst (λ n. Window r.buffer r.capacity c (layout c [] n)) more v.cells).0
          ∙ ap (λ t. some (free_cell t)) {x = c + 0} {y = c} (omega arith))
        (omega (arith, v.counted, v.large))

-- The released cell waits for the ticket one round later, and the rest of the queue stays.
pub release_cell-Repr {ℓ} :
    {A : Type ℓ} {r : Ring A} (x : A) (xs : List A)
    → Repr r (x ∷ xs)
    → InRange r
    → Repr (release_cell r r.consumer_pos) xs
unfolding release_cell
release_cell-Repr {A} {r} x xs v small = record {
  shape = put_cell-Shape v.shape c r.producer_pos (add_size c 1) new;
  counted = omega (arith, v.counted, next);
  fits = omega (arith, v.fits);
  cells =
      subst (λ b. Window b cap (add_size c 1) (layout (add_size c 1) xs (cap - length xs)))
        (sym (put_cell-mod v.shape c new))
        (subst (λ t. Window written cap t (layout t xs (cap - length xs))) (sym next)
          (subst (Window written cap (suc c)) moved rotated));
}
  where
    c : ℕ
    c = r.consumer_pos

    next : add_size c 1 ≡ suc c
    next = omega (arith, v.counted)

    cap : ℕ
    cap = r.capacity

    new : Cell A
    new = record { seq = add_size c cap; storage = none }

    written : List (Cell A)
    written = set r.buffer (c % cap) new

    left : ℕ
    left = cap - length (x ∷ xs)

    all_cells : length (layout c (x ∷ xs) left) ≡ cap
    all_cells = omega (arith, length-layout c (x ∷ xs) left, v.fits)

    written_window : Window written cap c (new ∷ layout (suc c) xs left)
    written_window =
        subst (λ u. Window written cap c (new ∷ filled (suc c) xs ++ free u left))
          {x = c + suc (length xs)} {y = suc c + length xs} (omega arith)
          (Window-set r.buffer cap c c 0 new (layout c (x ∷ xs) left) (omega arith) v.sized
            (omega (arith, all_cells)) (omega (arith, all_cells, v.large)) v.cells)

    rotated : Window written cap (suc c) (layout (suc c) xs left ++ new ∷ [])
    rotated =
        Window-rotate written cap c new (layout (suc c) xs left)
          (omega (arith, length-layout (suc c) xs left, v.fits)) written_window

    moved : layout (suc c) xs left ++ new ∷ [] ≡ layout (suc c) xs (cap - length xs)
    moved =
        ap (λ s. layout (suc c) xs left ++ record { seq = s; storage = none } ∷ [])
          {x = add_size c cap} {y = c + cap} (omega (arith, v.counted))
        ∙ rotate-layout c xs left (c + cap) (omega (arith, v.fits))
        ∙ ap (layout (suc c) xs) {x = suc left} {y = cap - length xs} (omega (arith, v.fits))
