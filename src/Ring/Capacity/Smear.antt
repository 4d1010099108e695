-- ===== src/Ring/Capacity/Smear.antt =====
-- The loop of `RoundUpToPow2`: each round doubles the run of ones below the highest one.
use native.Mathlib.Nat.{div-add-mod', div-one, mod-lt, one-le-pow}
use cpp_mpmc_thread_pool.Base.{
  ℕ, ◌+◌, ◌-◌, ◌*◌, ◌/◌, ◌%◌, ◌^◌, ◌≤◌, bit_or, ◌≡◌, sym, ap, ◌∙◌, ◌⊎◌, inl, inr, arith,
}
use native.Mathlib.Decide.{dec_le}
use cpp_mpmc_thread_pool.Base.BitOr.{two-pow-add, shr-shr, bit_or-shr, bit_or-ones, ones-shr}
use cpp_mpmc_thread_pool.Ring.{shifts, smear}

-- One round of the loop.
abbrev pub round : ℕ → ℕ → ℕ
round i x = bit_or x (x / 2 ^ i)

-- `|` with low ones, where the number is not yet split in its high and low digits.
or_low_ones : (k x : ℕ) → bit_or x (2 ^ k - 1) ≡ x / 2 ^ k * 2 ^ k + (2 ^ k - 1)
or_low_ones k x =
    ap (λ (t : ℕ). bit_or t (2 ^ k - 1)) (sym (div-add-mod' x (2 ^ k)))
    ∙ bit_or-ones k (x / 2 ^ k) (x % 2 ^ k) (mod-lt x (one-le-pow k 2 (omega arith)))

-- Ones that follow ones.
ones_append : (w k : ℕ) → (2 ^ w - 1) * 2 ^ k + (2 ^ k - 1) ≡ 2 ^ (w + k) - 1
ones_append w k =
    omega (arith, two-pow-add w k, one-le-pow w 2, one-le-pow k 2, one-le-pow (w + k) 2, expand)
  where
    expand : (2 ^ w - 1) * 2 ^ k + 2 ^ k ≡ 2 ^ w * 2 ^ k
    expand = omega (
      arith,
      ap (λ (t : ℕ). t * 2 ^ k) {x = 2 ^ w - 1 + 1} {y = 2 ^ w} (omega (arith, one-le-pow w 2)),
    )

-- The `w` highest of the `m + w` digits are ones.
abbrev Top : ℕ → ℕ → ℕ → Type 0
Top m w x = x / 2 ^ m ≡ 2 ^ w - 1

-- With room for another `w` ones, the run doubles.
round-Top : (m w x : ℕ) → Top (m + w) w x → Top m (w + w) (round w x)
round-Top m w x top =
    bit_or-shr m x (x / 2 ^ w)
    ∙ ap (bit_or (x / 2 ^ m)) shifted
    ∙ or_low_ones w (x / 2 ^ m)
    ∙ ap (λ (t : ℕ). t * 2 ^ w + (2 ^ w - 1)) (shr-shr x m w ∙ top)
    ∙ ones_append w w
  where
    shifted : x / 2 ^ w / 2 ^ m ≡ 2 ^ w - 1
    shifted = shr-shr x w m ∙ ap (λ (t : ℕ). x / 2 ^ t) {x = w + m} {y = m + w} (omega arith) ∙ top

-- With less room every digit becomes a one.
round-Top_last : (m w x : ℕ) → m ≤ w → Top m w x → round w x ≡ 2 ^ (m + w) - 1
round-Top_last m w x le top =
    ap (bit_or x) shifted
    ∙ or_low_ones m x
    ∙ ap (λ (t : ℕ). t * 2 ^ m + (2 ^ m - 1)) top
    ∙ ones_append w m
    ∙ ap (λ (t : ℕ). 2 ^ t - 1) {x = w + m} {y = m + w} (omega arith)
  where
    shifted : x / 2 ^ w ≡ 2 ^ m - 1
    shifted =
        ap (λ (t : ℕ). x / 2 ^ t) {x = w} {y = m + (w - m)} (omega arith)
        ∙ sym (shr-shr x m (w - m))
        ∙ ap (λ (t : ℕ). t / 2 ^ (w - m)) top
        ∙ ones-shr w (w - m)
        ∙ ap (λ (t : ℕ). 2 ^ t - 1) {x = w - (w - m)} {y = m} (omega arith)

-- Once they are all ones, they stay.
round-ones : (b i : ℕ) → round i (2 ^ b - 1) ≡ 2 ^ b - 1
round-ones b i =
    ap (bit_or (2 ^ b - 1)) (ones-shr b i)
    ∙ or_low_ones (b - i) (2 ^ b - 1)
    ∙ ap (λ (t : ℕ). t * 2 ^ (b - i) + (2 ^ (b - i) - 1)) (ones-shr b (b - i))
    ∙ ones_append (b - (b - i)) (b - i)
    ∙ ap (λ (t : ℕ). 2 ^ t - 1) {x = b - (b - i) + (b - i)} {y = b} (omega arith)

-- A number of `b` digits after the rounds up to `w / 2`.
abbrev Smeared : ℕ → ℕ → ℕ → Type 0
Smeared b w x = ((w ≤ b) × Top (b - w) w x) ⊎ (x ≡ 2 ^ b - 1)

round-Smeared : (b w x : ℕ) → Smeared b w x → Smeared b (w + w) (round w x)
round-Smeared b w x (inr ones) = inr (ap (round w) ones ∙ round-ones b w)
round-Smeared b w x (inl (le, top)) = elim (dec_le (w + w) b) [
  | yes more ↦ inl (
    more,
    round-Top (b - (w + w)) w x
        (ap (λ (t : ℕ). x / 2 ^ t) {x = b - (w + w) + w} {y = b - w} (omega arith) ∙ top),
  )
  | no last ↦ inr (
      round-Top_last (b - w) w x (omega arith) top
      ∙ ap (λ (t : ℕ). 2 ^ t - 1) {x = b - w + w} {y = b} (omega arith))
]

Smeared-all : (b x : ℕ) → b ≤ 64 → Smeared b 64 x → x ≡ 2 ^ b - 1
Smeared-all b x small (inr ones) = ones
Smeared-all b x small (inl (le, top)) =
    sym (div-one x)
    ∙ ap (λ (t : ℕ). x / 2 ^ t) {x = 0} {y = b - 64} (omega arith)
    ∙ top
    ∙ ap (λ (t : ℕ). 2 ^ t - 1) {x = 64} {y = b} (omega arith)

-- The six rounds fill a number of `b` digits with ones, for `b` up to 64.
pub smear-ones : (b x : ℕ) → 1 ≤ b → b ≤ 64 → x / 2 ^ (b - 1) ≡ 1 → smear shifts x ≡ 2 ^ b - 1
unfolding smear
smear-ones b x pos small top = Smeared-all b _ small (
    round-Smeared b 32 _ (
      round-Smeared b 16 _ (
        round-Smeared b 8 _
          (round-Smeared b 4 _ (round-Smeared b 2 _ (round-Smeared b 1 x (inl (pos, top))))))))
