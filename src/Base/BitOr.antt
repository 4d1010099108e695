-- ===== src/Base/BitOr.antt =====
-- `|` and `>>` at every width: shifts of a disjunction, and disjunctions with a low mask.
use mathlib.Core.Path.{◌≡◌, refl, sym, ap, ap₂, ◌∙◌}
use native.Mathlib.Nat.{pow-succ', one-le-pow, div-div-eq-div-mul, div-one, zero-div}
use native.Mathlib.Omega.{arith}
use Prim.Native.Nat.{ℕ, zero, suc, ◌+◌, ◌-◌, ◌*◌, ◌/◌, ◌^◌, ◌<◌, bit_or}
use cpp_mpmc_thread_pool.Base.Bits.{bit_or_low}

pub two-pow-add : (a b : ℕ) → 2 ^ (a + b) ≡ 2 ^ a * 2 ^ b
two-pow-add a zero = ap (λ (n : ℕ). 2 ^ n) {x = a + 0} {y = a} (omega arith) ∙ omega arith
two-pow-add a (suc b) =
    ap (λ (n : ℕ). 2 ^ n) {x = a + suc b} {y = suc (a + b)} (omega arith)
    ∙ omega (arith, pow-succ' 2 (a + b), two-pow-add a b, ap (λ (t : ℕ). 2 ^ a * t) (pow-succ' 2 b))

pub shr-shr : (x a b : ℕ) → x / 2 ^ a / 2 ^ b ≡ x / 2 ^ (a + b)
shr-shr x a b = div-div-eq-div-mul x (2 ^ a) (2 ^ b) ∙ ap (λ (t : ℕ). x / t) (sym (two-pow-add a b))

bit_or-half : (a b : ℕ) → bit_or a b / 2 ≡ bit_or (a / 2) (b / 2)
bit_or-half a b = omega (arith, bit_or_low a b)

-- (a | b) >> k is (a >> k) | (b >> k).
pub bit_or-shr : (k a b : ℕ) → bit_or a b / 2 ^ k ≡ bit_or (a / 2 ^ k) (b / 2 ^ k)
bit_or-shr zero a b = div-one (bit_or a b) ∙ sym (ap₂ bit_or (div-one a) (div-one b))
bit_or-shr (suc k) a b =
    halve (bit_or a b)
    ∙ ap (λ (t : ℕ). t / 2 ^ k) (bit_or-half a b)
    ∙ bit_or-shr k (a / 2) (b / 2)
    ∙ sym (ap₂ bit_or (halve a) (halve b))
  where
    halve : (x : ℕ) → x / 2 ^ suc k ≡ x / 2 / 2 ^ k
    halve x = ap (λ (t : ℕ). x / t) (pow-succ' 2 k) ∙ sym (div-div-eq-div-mul x 2 (2 ^ k))

bit_or-zero_below : (n a : ℕ) → a < n → bit_or a 0 ≡ a
bit_or-zero_below zero a h = absurd (omega arith)
bit_or-zero_below (suc n) zero h = refl
bit_or-zero_below (suc n) (suc a) h =
    omega (arith, bit_or_low (suc a) 0, bit_or-zero_below n (suc a / 2) (omega arith))

-- A disjunction with `k` low ones sets the `k` low digits.
pub bit_or-ones :
    (k high low : ℕ)
    → low < 2 ^ k
    → bit_or (high * 2 ^ k + low) (2 ^ k - 1) ≡ high * 2 ^ k + (2 ^ k - 1)
bit_or-ones zero high low fits = ground (arith, bit_or-zero_below (suc high) high)
bit_or-ones (suc k) high low fits = ground (
  arith,
  bit_or_low (high * 2 ^ suc k + low) (2 ^ suc k - 1),
  pow-succ' 2 k,
  ap (λ (t : ℕ). high * t) (pow-succ' 2 k),
  one-le-pow k 2,
  bit_or-ones k high (low / 2),
)

-- A number of `n` ones, shifted.
pub ones-shr : (n k : ℕ) → (2 ^ n - 1) / 2 ^ k ≡ 2 ^ (n - k) - 1
ones-shr n zero = div-one (2 ^ n - 1) ∙ ap (λ (t : ℕ). 2 ^ t - 1) {x = n} {y = n - 0} (omega arith)
ones-shr zero (suc k) =
    zero-div (2 ^ suc k) ∙ ap (λ (t : ℕ). 2 ^ t - 1) {x = 0} {y = 0 - suc k} (omega arith)
ones-shr (suc n) (suc k) =
    ap (λ (t : ℕ). (2 ^ suc n - 1) / t) (pow-succ' 2 k)
    ∙ sym (div-div-eq-div-mul (2 ^ suc n - 1) 2 (2 ^ k))
    ∙ ap (λ (t : ℕ). t / 2 ^ k) {x = (2 ^ suc n - 1) / 2} {y = 2 ^ n - 1}
        (omega (arith, pow-succ' 2 n, one-le-pow n 2))
    ∙ ones-shr n k
    ∙ ap (λ (t : ℕ). 2 ^ t - 1) {x = n - k} {y = suc n - suc k} (omega arith)
