-- ===== src/Worker/Sums.antt =====
-- Sums over the workers of src/thread_pool.cpp, and the flags of their slots.
use mathlib.Core.Path.{subst}
use cpp_mpmc_thread_pool.Base.{
  ℕ, zero, suc, ◌+◌, ◌≤◌, ◌≡◌, ap, ◌⊎◌, true, false, Option, none, some, List, [], ◌∷◌, ◌++◌, arith,
  length, get_elem?, set,
}
use cpp_mpmc_thread_pool.Worker.{Stage, looking, pausing, popping, executing, gone, Worker}

abbrev pub alive : Stage → ℕ
alive gone = 0
alive _ = 1

abbrev pub busy : Stage → ℕ
busy executing = 1
busy _ = 0

abbrev pub sum : (Stage → ℕ) → List Worker → ℕ
sum f [] = 0
sum f (w ∷ ws) = f w.stage + sum f ws

-- The flags of a worker's slot.
abbrev pub Marked : Worker → Type 0
Marked w =
    (w.normal_end ≡ false) × (busy w.stage ≡ 0)
    ⊎ ((w.normal_end ≡ true) × (w.stage ≡ executing) × (w.idle ≡ false) × (w.idle_nums ≡ 0))

abbrev pub AllMarked : List Worker → Type 0
AllMarked [] = Unit
AllMarked (w ∷ ws) = Marked w × AllMarked ws

module _ (f : Stage → ℕ) where
  pub sum-append : (ws vs : List Worker) → sum f (ws ++ vs) ≡ sum f ws + sum f vs
  sum-append [] vs = omega arith
  sum-append (w ∷ ws) vs = omega (arith, sum-append ws vs)

  pub sum-set :
      (ws : List Worker) (k : ℕ) (w v : Worker)
      → get_elem? ws k ≡ some w
      → sum f (set ws k v) + f w.stage ≡ sum f ws + f v.stage
  sum-set [] k w v e = absurd (cc)
  sum-set (u ∷ ws) zero w v e =
      let h : f u.stage ≡ f w.stage =
        ap (λ (o : Option Worker). elim o [ none ↦ 0 | some x ↦ f x.stage ]) e in
      omega (arith, h)
  sum-set (u ∷ ws) (suc k) w v e = omega (arith, sum-set ws k w v e)

  pub sum_le : ((s : Stage) → f s ≤ 1) → (ws : List Worker) → sum f ws ≤ length ws
  sum_le h [] = omega arith
  sum_le h (w ∷ ws) = omega (arith, h w.stage, sum_le h ws)

pub some_worker : (u w : Worker) → ◌≡◌ {A = Option Worker} (some u) (some w) → u ≡ w
some_worker u w e = cc

pub AllMarked-lookup :
    (ws : List Worker) (k : ℕ) (w : Worker) → AllMarked ws → get_elem? ws k ≡ some w → Marked w
AllMarked-lookup [] k w m e = absurd (cc)
AllMarked-lookup (u ∷ ws) zero w m e = subst Marked (some_worker u w e) m.0
AllMarked-lookup (u ∷ ws) (suc k) w m e = AllMarked-lookup ws k w m.1 e

pub AllMarked-set :
    (ws : List Worker) (k : ℕ) (v : Worker) → AllMarked ws → Marked v → AllMarked (set ws k v)
AllMarked-set [] k v m h = tt
AllMarked-set (u ∷ ws) zero v m h = (h, m.1)
AllMarked-set (u ∷ ws) (suc k) v m h = (m.0, AllMarked-set ws k v m.1 h)

pub AllMarked-append : (ws vs : List Worker) → AllMarked ws → AllMarked vs → AllMarked (ws ++ vs)
AllMarked-append [] vs m h = h
AllMarked-append (u ∷ ws) vs m h = (m.0, AllMarked-append ws vs m.1 h)

pub alive_le : (s : Stage) → alive s ≤ 1
alive_le gone = omega arith
alive_le looking = omega arith
alive_le pausing = omega arith
alive_le popping = omega arith
alive_le executing = omega arith

pub busy_le : (s : Stage) → busy s ≤ 1
busy_le gone = omega arith
busy_le looking = omega arith
busy_le pausing = omega arith
busy_le popping = omega arith
busy_le executing = omega arith
