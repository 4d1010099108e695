-- ===== src/Ring/Capacity.antt =====
-- The constructor of include/mpmc/bounded_circular_queue.hpp and its rounding.
mod Smear
use Smear.{smear-ones}
use native.Mathlib.Nat.{div-eq_of_lt-le, mod-eq_of_lt, one-le-pow, pow-le-pow_right, pow-succ'}
use native.Mathlib.Decide.{dec_le, dec_lt}
use cpp_mpmc_thread_pool.Base.{
  ℕ, zero, suc, ◌+◌, ◌-◌, ◌*◌, ◌/◌, ◌%◌, ◌^◌, ◌≤◌, ◌<◌, ◌≡◌, refl, sym, ap, ◌∙◌, some, List, [],
  ◌∷◌, arith, length, get_elem?, lt→ltb, le→ltb,
}
use cpp_mpmc_thread_pool.Base.Words.{size_mod, add_size, sub_size}
use cpp_mpmc_thread_pool.Ring.{
  Cell, Ring, shifts, smear, round_up_to_pow2, new_cells, with_capacity, make,
}
use cpp_mpmc_thread_pool.Ring.Window.{Window}
use cpp_mpmc_thread_pool.Ring.Repr.{free_cell, free, Repr, InRange}

-- How many binary digits a positive number has.
record Digits (x : ℕ) : Type 0 where
  digits : ℕ
  positive : 1 ≤ digits
  above : 2 ^ (digits - 1) ≤ x
  below : x < 2 ^ digits

width_of : (n x : ℕ) → 1 ≤ x → x < n → Digits x
width_of zero x h lt = absurd (omega arith)
width_of (suc n) x h lt = elim (dec_le x 1) [
  | yes one ↦ record { digits = 1; positive = omega arith; above = h; below = omega arith }
  | no more ↦
      let d = width_of n (x / 2) (omega arith) (omega arith) in
      record {
        digits = suc d.digits;
        positive = omega arith;
        above = omega (
          arith,
          d.above,
          d.positive,
          pow-succ' 2 (d.digits - 1),
          ap (λ (t : ℕ). 2 ^ t) {x = suc d.digits - 1} {y = suc (d.digits - 1)}
              (omega (arith, d.positive)),
        );
        below = omega (arith, d.below, pow-succ' 2 d.digits);
      }
]

pow_lt_cancel : (a b : ℕ) → 2 ^ a < 2 ^ b → a < b
pow_lt_cancel a b h = elim (dec_lt a b) [
  | yes lt ↦ lt
  | no ge ↦
      absurd (omega (arith, pow-le-pow_right {n = 2} (omega arith) {i = b} {j = a} (omega arith)))
]

-- The rounded capacity, with the digits of `n - 1`.
rounded :
    (n : ℕ)
    → 2 ≤ n
    → n < size_mod
    → (d : Digits (n - 1)) → round_up_to_pow2 n ≡ 2 ^ d.digits % size_mod
unfolding round_up_to_pow2
rounded n two fits d = rw (le→ltb n 2 two) (
    ap (λ (t : ℕ). add_size t 1) loop
    ∙ ap (λ (t : ℕ). t % size_mod) {x = 2 ^ d.digits - 1 + 1} {y = 2 ^ d.digits}
        (omega (arith, one-le-pow d.digits 2)))
  where
    twice : 2 ^ d.digits ≡ 2 * 2 ^ (d.digits - 1)
    twice =
        ap (λ (t : ℕ). 2 ^ t) {x = d.digits} {y = suc (d.digits - 1)} (omega (arith, d.positive))
        ∙ pow-succ' 2 (d.digits - 1)

    loop : smear shifts (sub_size n 1) ≡ 2 ^ d.digits - 1
    loop =
        ap (smear shifts) {x = sub_size n 1} {y = n - 1} (omega arith)
        ∙ smear-ones d.digits (n - 1) d.positive
            (omega (arith, pow_lt_cancel (d.digits - 1) 64 (omega (arith, d.above))))
            (div-eq_of_lt-le (2 ^ (d.digits - 1)) (omega (arith, d.above))
              (omega (arith, d.below, twice)))

-- For `n` up to 2^63, `RoundUpToPow2` gives 2^k with k from 1 to 63, which is at least `n` and the
-- least power of two from 2 on that is.
pub round_up_least :
    (n : ℕ)
    → n ≤ 2 ^ 63
    → (k : ℕ) × (1 ≤ k)
      × (k ≤ 63)
      × (round_up_to_pow2 n ≡ 2 ^ k)
      × (n ≤ 2 ^ k)
      × ((j : ℕ) → 1 ≤ j → n ≤ 2 ^ j → 2 ^ k ≤ 2 ^ j)
unfolding round_up_to_pow2
round_up_least n small = elim (dec_lt n 2) [
  | yes less ↦ (
    1,
    omega arith,
    omega arith,
    rw (lt→ltb n 2 less),
    omega arith,
    λ j pos h. pow-le-pow_right {n = 2} (omega arith) {i = 1} {j = j} pos,
  )
  | no two ↦
      let d = width_of n (n - 1) (omega arith) (omega arith) in
      let lt = pow_lt_cancel (d.digits - 1) 63 (omega (arith, d.above)) in
      (
        d.digits,
        d.positive,
        omega (arith, lt),
        rounded n (omega arith) (omega arith) d
            ∙ mod-eq_of_lt (
                omega (
                  arith,
                  pow-le-pow_right {n = 2} (omega arith) {i = d.digits} {j = 63}
                      (omega (arith, lt)),
                )),
        omega (arith, d.below),
        λ j pos h.
            pow-le-pow_right {n = 2} (omega arith) {i = d.digits} {j = j}
              (omega (arith, pow_lt_cancel (d.digits - 1) j (omega (arith, d.above)))),
      )
]

-- For `n` above 2^63 that fits 64 bits, `RoundUpToPow2` wraps around to 0.
pub round_up_overflow : (n : ℕ) → 2 ^ 63 < n → n < size_mod → round_up_to_pow2 n ≡ 0
round_up_overflow n large fits =
    let d = width_of n (n - 1) (omega arith) (omega arith) in
    let up = pow_lt_cancel (d.digits - 1) 64 (omega (arith, d.above)) in
    let down = pow_lt_cancel 63 d.digits (omega (arith, d.below)) in
    let e : d.digits ≡ 64 = omega (arith, up, down, d.positive) in
    rounded n (omega arith) fits d ∙ ap (λ (t : ℕ). 2 ^ t % size_mod) e

module _ {ℓ} (A : Type ℓ) where
  pub length-new_cells : (i n : ℕ) → length (new_cells {A = A} i n) ≡ n
  unfolding new_cells
  length-new_cells i zero = refl
  length-new_cells i (suc n) = ap suc (length-new_cells (suc i) n)

  pub new_cells_at :
      (i n j : ℕ) → j < n → get_elem? (new_cells {A = A} i n) j ≡ some (free_cell (i + j))
  unfolding new_cells
  new_cells_at i zero j lt = absurd (omega arith)
  new_cells_at i (suc n) zero lt = ap (λ t. some (free_cell t)) {x = i} {y = i + 0} (omega arith)
  new_cells_at i (suc n) (suc j) lt =
      new_cells_at (suc i) n j (omega arith)
      ∙ ap (λ t. some (free_cell t)) {x = suc i + j} {y = i + suc j} (omega arith)

  new_Window : (cap t n : ℕ) → t + n ≤ cap → Window (new_cells {A = A} 0 cap) cap t (free t n)
  new_Window cap t zero le = tt
  new_Window cap t (suc n) le = (
    ap (get_elem? (new_cells 0 cap)) (mod-eq_of_lt {n = t} {m = cap} (omega arith))
        ∙ new_cells_at 0 cap t (omega arith)
        ∙ ap (λ u. some (free_cell u)) {x = 0 + t} {y = t} (omega arith),
    new_Window cap (suc t) n (omega arith),
  )

  with_capacity-Repr :
      (k cap : ℕ) → 1 ≤ k → k ≤ 63 → cap ≡ 2 ^ k → Repr (with_capacity {A = A} cap) []
  unfolding with_capacity
  with_capacity-Repr k cap pos small e = record {
    shape = record {
      width = k;
      power = e;
      large = omega (arith, low);
      masked = omega (arith, low, high);
      sized = length-new_cells 0 cap;
    };
    counted = omega arith;
    fits = omega arith;
    cells = new_Window cap 0 (cap - 0) (omega arith);
  }
    where
      low : 2 ≤ cap
      low = omega (arith, e, pow-le-pow_right {n = 2} (omega arith) {i = 1} {j = k} pos)

      high : cap ≤ 2 ^ 63
      high = omega (arith, e, pow-le-pow_right {n = 2} (omega arith) {i = k} {j = 63} small)

  -- The constructor with a capacity of at most 2^62 makes a ring that holds nothing, satisfies the
  -- invariant of the ring with positions in range, and has at least the capacity asked for.
  pub make-Repr :
      (n : ℕ)
      → n ≤ 2 ^ 62
      → Repr (make {A = A} n) [] × InRange (make {A = A} n) × (n ≤ (make {A = A} n).capacity)
  unfolding make with_capacity
  make-Repr n small =
      let (k, pos, le, e, up, least) = round_up_least n (omega arith) in
      (
        with_capacity-Repr k (round_up_to_pow2 n) pos le e,
        omega (arith, e, least 62 (omega arith) small),
        omega (arith, e, up),
      )
