-- ===== src/Base/Bits.antt =====
-- `&` with a low mask is a remainder, and `|` acts on the high and the low digits apart.
use Prim.Native.Nat.{
  ℕ, zero, suc, ◌+◌, ◌-◌, ◌*◌, ◌/◌, ◌%◌, ◌^◌, ◌≤◌, ◌<◌, min, max, digits, bitwise, bit_and, bit_or,
  bit_and-bitwise, bit_or-bitwise,
}
use mathlib.Core.Path.{◌≡◌, refl, ap}
use native.Mathlib.Nat.{pow-succ', one-le-pow, mod_def, div-div-eq-div-mul, div-mul-le_self}
use native.Mathlib.Omega.{arith}

-- The recursion on digits that the native operations stand for does not depend on its fuel.
module _ (rest : ℕ → ℕ) (op : ℕ → ℕ → ℕ) where
  digits_enough : (m n a b : ℕ) → a ≤ m → a ≤ n → digits rest op m a b ≡ digits rest op n a b
  digits_enough zero zero zero b h k = refl
  digits_enough zero (suc n) zero b h k = refl
  digits_enough (suc m) zero zero b h k = refl
  digits_enough (suc m) (suc n) zero b h k = refl
  digits_enough zero n (suc a) b h k = absurd (omega arith)
  digits_enough (suc m) zero (suc a) b h k = absurd (omega arith)
  digits_enough (suc m) (suc n) (suc a) b h k =
      ap (λ (t : ℕ). t * 2 + op (suc a % 2) (b % 2))
        (digits_enough m n (suc a / 2) (b / 2) (omega arith) (omega arith))

  bitwise_low :
      (a b : ℕ)
      → bitwise rest op (suc a) b ≡ bitwise rest op (suc a / 2) (b / 2) * 2 + op (suc a % 2) (b % 2)
  bitwise_low a b =
      ap (λ (t : ℕ). t * 2 + op (suc a % 2) (b % 2))
        (digits_enough a (suc a / 2) (suc a / 2) (b / 2) (omega arith) (omega arith))

pub bit_and_low : (a b : ℕ) → bit_and a b ≡ bit_and (a / 2) (b / 2) * 2 + min (a % 2) (b % 2)
bit_and_low zero b = simp bit_and-bitwise (omega arith)
bit_and_low (suc a) b = simp bit_and-bitwise (bitwise_low (λ _. 0) min a b)

pub bit_or_low : (a b : ℕ) → bit_or a b ≡ bit_or (a / 2) (b / 2) * 2 + max (a % 2) (b % 2)
bit_or_low zero b = simp bit_or-bitwise (omega arith)
bit_or_low (suc a) b = simp bit_or-bitwise (bitwise_low (λ y. y) max a b)

bit_and-zero_below : (n a : ℕ) → a < n → bit_and a 0 ≡ 0
bit_and-zero_below zero a h = absurd (omega arith)
bit_and-zero_below (suc n) zero h = refl
bit_and-zero_below (suc n) (suc a) h =
    omega (arith, bit_and_low (suc a) 0, bit_and-zero_below n (suc a / 2) (omega arith))

-- A remainder by twice `m`, from the lowest digit and the rest.
mod-twice : (a m : ℕ) → a % (2 * m) ≡ a / 2 % m * 2 + a % 2
mod-twice a m = omega (
  arith,
  mod_def a (2 * m),
  mod_def (a / 2) m,
  div-div-eq-div-mul a 2 m,
  ap (λ (t : ℕ). 2 * m * t) (div-div-eq-div-mul a 2 m),
  div-mul-le_self (a / 2) m,
)

-- A mask of `k` ones keeps the remainder by `2 ^ k`.
pub bit_and-mask : (k a : ℕ) → bit_and a (2 ^ k - 1) ≡ a % 2 ^ k
bit_and-mask zero a = omega (arith, bit_and-zero_below (suc a) a (omega arith))
bit_and-mask (suc k) a = ground (
  arith,
  bit_and_low a (2 ^ suc k - 1),
  pow-succ' 2 k,
  one-le-pow k 2,
  bit_and-mask k (a / 2),
  mod-twice a (2 ^ k),
  ap (λ (t : ℕ). a % t) (pow-succ' 2 k),
)
