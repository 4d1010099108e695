-- ===== src/Ring/Repr.antt =====
-- Which queue of elements a ring stands for, oldest first.
use cpp_mpmc_thread_pool.Base.{
  ℕ, zero, suc, ◌+◌, ◌-◌, ◌%◌, ◌^◌, ◌≤◌, ◌<◌, bit_and, ◌≡◌, refl, sym, ap, ◌∙◌, none, some, List,
  [], ◌∷◌, ◌++◌, arith, length, get_elem?, set, length-append, length-set,
}
use cpp_mpmc_thread_pool.Base.Bits.{bit_and-mask}
use cpp_mpmc_thread_pool.Ring.{Cell, Ring, cell_at, put_cell}
use cpp_mpmc_thread_pool.Ring.Window.{Window}

module _ {ℓ} {A : Type ℓ} where
  -- The cell of ticket `t` once it is written, and before.
  abbrev pub full_cell : ℕ → A → Cell A
  full_cell t x = record { seq = suc t; storage = some x }

  abbrev pub free_cell : ℕ → Cell A
  free_cell t = record { seq = t; storage = none }

  abbrev pub filled : ℕ → List A → List (Cell A)
  filled t [] = []
  filled t (x ∷ xs) = full_cell t x ∷ filled (suc t) xs

  abbrev pub free : ℕ → ℕ → List (Cell A)
  free t zero = []
  free t (suc n) = free_cell t ∷ free (suc t) n

  -- `n` elements less than fit.
  abbrev pub layout : ℕ → List A → ℕ → List (Cell A)
  layout t xs n = filled t xs ++ free (t + length xs) n

-- What the constructor fixes.
pub record Shape {ℓ} {A : Type ℓ} (r : Ring A) : Type ℓ where
  pub width : ℕ
  pub power : r.capacity ≡ 2 ^ width
  pub large : 2 ≤ r.capacity
  pub masked : r.mask ≡ r.capacity - 1
  pub sized : length r.buffer ≡ r.capacity

-- The ring holds `xs`: the elements stand in the cells from `consumer_pos` on, the other cells wait
-- for the tickets that come after `producer_pos`, and no object lives in them.
pub record Repr {ℓ} {A : Type ℓ} (r : Ring A) (xs : List A) : Type ℓ where
  pub shape : Shape r
  pub open shape use *
  pub counted : r.producer_pos ≡ r.consumer_pos + length xs
  pub fits : length xs ≤ r.capacity
  pub cells :
      Window r.buffer r.capacity r.consumer_pos (layout r.consumer_pos xs (r.capacity - length xs))

-- No position reaches the sign bit of `std::ptrdiff_t`: the signed difference of a sequence number
-- and a position does not overflow. A ring gets there after 2^63 operations.
abbrev pub InRange {ℓ} : {A : Type ℓ} → Ring A → Type 0
InRange r = r.producer_pos + r.capacity < 2 ^ 63

length-free {ℓ} : (A : Type ℓ) (t n : ℕ) → length (free {A = A} t n) ≡ n
length-free A t zero = refl
length-free A t (suc n) = ap suc (length-free A (suc t) n)

pub free-snoc {ℓ} :
    (A : Type ℓ) (t n : ℕ) → free {A = A} t (suc n) ≡ free t n ++ free_cell (t + n) ∷ []
free-snoc A t zero = ap (λ u. free_cell u ∷ []) {x = t} {y = t + 0} (omega arith)
free-snoc A t (suc n) = ap (◌∷◌ (free_cell t)) (
    free-snoc A (suc t) n
    ∙ ap (λ u. free (suc t) n ++ free_cell u ∷ []) {x = suc t + n} {y = t + suc n} (omega arith))

module _ {ℓ} {A : Type ℓ} where
  pub length-filled : (t : ℕ) (xs : List A) → length (filled t xs) ≡ length xs
  length-filled t [] = refl
  length-filled t (x ∷ xs) = ap suc (length-filled (suc t) xs)

  pub length-layout : (t : ℕ) (xs : List A) (n : ℕ) → length (layout t xs n) ≡ length xs + n
  length-layout t xs n = omega (
    arith,
    length-append (filled t xs) (free (t + length xs) n),
    length-filled t xs,
    length-free A (t + length xs) n,
  )

  pub filled-snoc :
      (t : ℕ) (xs : List A) (x : A)
      → filled t (xs ++ x ∷ []) ≡ filled t xs ++ full_cell (t + length xs) x ∷ []
  filled-snoc t [] x = ap (λ u. full_cell u x ∷ []) {x = t} {y = t + 0} (omega arith)
  filled-snoc t (y ∷ xs) x = ap (◌∷◌ (full_cell t y)) (
      filled-snoc (suc t) xs x
      ∙ ap (λ u. filled (suc t) xs ++ full_cell u x ∷ []) {x = suc t + length xs}
          {y = t + suc (length xs)} (omega arith))

module _ {ℓ} {A : Type ℓ} {r : Ring A} (v : Shape r) where
  -- `& mask_` is the remainder by the capacity.
  pub index-mod : (t : ℕ) → bit_and t r.mask ≡ t % r.capacity
  index-mod t =
      ap (bit_and t) (v.masked ∙ ap (λ (c : ℕ). c - 1) v.power)
      ∙ bit_and-mask v.width t
      ∙ ap (λ (c : ℕ). t % c) (sym v.power)

  pub cell_at-mod : (t : ℕ) → cell_at r t ≡ get_elem? r.buffer (t % r.capacity)
  cell_at-mod t = ap (get_elem? r.buffer) (index-mod t)

  pub put_cell-mod : (t : ℕ) (c : Cell A) → put_cell r t c ≡ set r.buffer (t % r.capacity) c
  put_cell-mod t c = ap (λ i. set r.buffer i c) (index-mod t)

  -- A write to a cell, and a move of the positions, keep the shape.
  pub put_cell-Shape :
      (t p c : ℕ) (new : Cell A)
      → Shape (record r { buffer = put_cell r t new; producer_pos = p; consumer_pos = c })
  put_cell-Shape t p c new = record {
    width = v.width;
    power = v.power;
    large = v.large;
    masked = v.masked;
    sized = ap length (put_cell-mod t new) ∙ length-set r.buffer (t % r.capacity) new ∙ v.sized;
  }
