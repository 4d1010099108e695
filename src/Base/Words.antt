-- ===== src/Base/Words.antt =====
-- `std::size_t` and `std::ptrdiff_t` on a 64-bit target.
use Prim.Native.Nat.{ℕ, zero, suc, ◌+◌, ◌-◌, ◌%◌, ◌^◌, ◌<◌}
use mathlib.Core.Path.{◌≡◌}
use mathlib.Core.Bool.{Bool, true, false}
use native.Mathlib.Omega.{arith}
use cpp_mpmc_thread_pool.Base.Tests.{ltb, leb, ◌==◌, if◌then◌else◌}

-- The number of values of a `size_t`.
abbrev pub size_mod : ℕ
size_mod = 2 ^ 64

abbrev pub add_size : ℕ → ℕ → ℕ
add_size a b = (a + b) % size_mod

abbrev pub sub_size : ℕ → ℕ → ℕ
sub_size a b = (a + size_mod - b) % size_mod

-- `negsuc n` is -(n + 1).
pub data ℤ : Type 0 where
  pos : ℕ → ℤ
  negsuc : ℕ → ℤ

abbrev pub sub_ℕ : ℕ → ℕ → ℤ
sub_ℕ a b = if leb b a then pos (a - b) else negsuc (b - a - 1)

abbrev pos_part : ℤ → ℕ
pos_part (pos n) = n
pos_part (negsuc n) = 0

abbrev neg_part : ℤ → ℕ
neg_part (pos n) = 0
neg_part (negsuc n) = suc n

infixl 65 ◌-ℤ◌
abbrev pub ◌-ℤ◌ : ℤ → ℤ → ℤ
a -ℤ b = sub_ℕ (pos_part a + neg_part b) (neg_part a + pos_part b)

-- `static_cast<std::ptrdiff_t>`: two's complement.
abbrev pub to_ptrdiff : ℕ → ℤ
to_ptrdiff w = if ltb w (2 ^ 63) then pos w else negsuc (size_mod - w - 1)

abbrev pub is_zero : ℤ → Bool
is_zero (pos zero) = true
is_zero (pos (suc n)) = false
is_zero (negsuc n) = false

abbrev pub is_negative : ℤ → Bool
is_negative (pos n) = false
is_negative (negsuc n) = true

-- `static_cast<std::ptrdiff_t>(seq) - static_cast<std::ptrdiff_t>(at)`
unfoldable pub ptr_diff : ℕ → ℕ → ℤ
ptr_diff seq at = to_ptrdiff seq -ℤ to_ptrdiff at

is_zero-sub_ℕ : (a b : ℕ) → is_zero (sub_ℕ a b) ≡ (a == b)
is_zero-sub_ℕ a b = ground arith

module _ (a b : ℕ) (ha : a < 2 ^ 63) (hb : b < 2 ^ 63) where
  -- Below 2^63 the signed difference tells the order of the two numbers.
  pub is_zero-ptr_diff : is_zero (ptr_diff a b) ≡ (a == b)
  unfolding ptr_diff
  is_zero-ptr_diff = ground arith

  pub is_negative-ptr_diff : is_negative (ptr_diff a b) ≡ ltb a b
  unfolding ptr_diff
  is_negative-ptr_diff = ground arith
