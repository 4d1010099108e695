-- ===== src/Base/Totals.antt =====
-- Sums over a list, and what a write to one place changes.
use Prim.Native.Nat.{ℕ, zero, suc, ◌+◌, ◌≤◌}
use mathlib.Core.Path.{◌≡◌, ap}
use mathlib.Core.List.{List, [], ◌∷◌}
use mathlib.Core.Option.{Option, none, some}
use native.Mathlib.Omega.{arith}
use cpp_mpmc_thread_pool.Base.Lists.{get_elem?, set}

module _ {A : Type 0} where
  abbrev pub total : (A → ℕ) → List A → ℕ
  total f [] = 0
  total f (x ∷ xs) = f x + total f xs

  pub total-set :
      (f : A → ℕ) (xs : List A) (k : ℕ) (x y : A)
      → get_elem? xs k ≡ some x
      → total f (set xs k y) + f x ≡ total f xs + f y
  total-set f [] k x y e = absurd (cc)
  total-set f (z ∷ xs) zero x y e =
      let h : f z ≡ f x = ap (λ (o : Option A). elim o [ none ↦ 0 | some w ↦ f w ]) e in
      omega (arith, h)
  total-set f (z ∷ xs) (suc k) x y e = omega (arith, total-set f xs k x y e)

  pub total_le : (f g : A → ℕ) → ((x : A) → f x ≤ g x) → (xs : List A) → total f xs ≤ total g xs
  total_le f g h [] = omega arith
  total_le f g h (x ∷ xs) = omega (arith, h x, total_le f g h xs)

  pub total-lookup :
      (f : A → ℕ) (xs : List A) (k : ℕ) (x : A) → get_elem? xs k ≡ some x → f x ≤ total f xs
  total-lookup f [] k x e = absurd (cc)
  total-lookup f (z ∷ xs) zero x e =
      let h : f z ≡ f x = ap (λ (o : Option A). elim o [ none ↦ 0 | some w ↦ f w ]) e in
      omega (arith, h)
  total-lookup f (z ∷ xs) (suc k) x e = omega (arith, total-lookup f xs k x e)

  pub total_le_add :
      (f g h : A → ℕ)
      → ((x : A) → f x ≤ g x + h x)
      → (xs : List A) → total f xs ≤ total g xs + total h xs
  total_le_add f g h e [] = omega arith
  total_le_add f g h e (x ∷ xs) = omega (arith, e x, total_le_add f g h e xs)
