-- ===== src/Ring/Concurrent/Quiet.antt =====
-- A ring that no thread works on, after any schedule.
use mathlib.Core.Path.{subst}
use cpp_mpmc_thread_pool.Base.{
  ℕ, zero, suc, ◌+◌, ◌-◌, ◌%◌, ◌^◌, ◌≤◌, ◌<◌, ◌≡◌, refl, sym, ap, ◌∙◌, inl, inr, some, List, [],
  ◌∷◌, ◌++◌, arith, length, get_elem?, drop, length-drop,
}
use cpp_mpmc_thread_pool.Ring.{Cell, Ring, make, with_capacity}
use cpp_mpmc_thread_pool.Ring.Window.{Window}
use cpp_mpmc_thread_pool.Ring.Repr.{full_cell, free_cell, filled, free, Repr}
use cpp_mpmc_thread_pool.Ring.Concurrent.{Pc, idle, Choice, System, start_of, steps}
use cpp_mpmc_thread_pool.Ring.Concurrent.Invariant.{
  slot, consuming, look, Resting, times, Inv, Returned,
}
use cpp_mpmc_thread_pool.Ring.Concurrent.Cells.{some_injective}
use cpp_mpmc_thread_pool.Ring.Concurrent.Frame.{none_ne_some}
use cpp_mpmc_thread_pool.Ring.Concurrent.Good.{Good}
use cpp_mpmc_thread_pool.Ring.Concurrent.Safety.{get_elem?-some, start_of-Good, steps-Good}

get_elem?-drop :
    {A : Type 0} (n k : ℕ) (xs : List A) → get_elem? (drop n xs) k ≡ get_elem? xs (n + k)
get_elem?-drop zero k xs = ap (get_elem? xs) {x = k} {y = 0 + k} (omega arith)
get_elem?-drop (suc n) k [] = refl
get_elem?-drop (suc n) k (x ∷ xs) =
    get_elem?-drop n k xs ∙ ap (get_elem? (x ∷ xs)) {x = suc (n + k)} {y = suc n + k} (omega arith)

module _ {A : Type 0} (buf : List (Cell A)) (cap : ℕ) where
  free-Window :
      (t u n : ℕ)
      → t ≡ u
      → ((k : ℕ) → k < n → get_elem? buf ((u + k) % cap) ≡ some (free_cell (u + k)))
      → Window buf cap t (free u n)
  free-Window t u zero e h = tt
  free-Window t u (suc n) e h = (
    ap (λ v. get_elem? buf (v % cap)) {x = t} {y = u + 0} (omega arith)
        ∙ h 0 (omega arith)
        ∙ ap (λ v. some (free_cell v)) {x = u + 0} {y = u} (omega arith),
    free-Window (suc t) (suc u) n (omega arith) (λ k less.
        ap (λ v. get_elem? buf (v % cap)) {x = suc u + k} {y = u + suc k} (omega arith)
        ∙ h (suc k) (omega arith)
        ∙ ap (λ v. some (free_cell v)) {x = u + suc k} {y = suc u + k} (omega arith)),
  )

  -- A window from its cells.
  layout-Window :
      (t u n : ℕ) (xs : List A)
      → t + length xs ≡ u
      → ((k : ℕ) (x : A)
          → get_elem? xs k ≡ some x
          → get_elem? buf ((t + k) % cap) ≡ some (full_cell (t + k) x))
      → ((k : ℕ) → k < n → get_elem? buf ((u + k) % cap) ≡ some (free_cell (u + k)))
      → Window buf cap t (filled t xs ++ free u n)
  layout-Window t u n [] e hx h = free-Window t u n (omega arith) h
  layout-Window t u n (x ∷ xs) e hx h = (
    ap (λ v. get_elem? buf (v % cap)) {x = t} {y = t + 0} (omega arith)
        ∙ hx 0 x refl
        ∙ ap (λ v. some (full_cell v x)) {x = t + 0} {y = t} (omega arith),
    layout-Window (suc t) u n xs (omega arith)
        (λ k y g.
          ap (λ v. get_elem? buf (v % cap)) {x = suc t + k} {y = t + suc k} (omega arith)
          ∙ hx (suc k) y g
          ∙ ap (λ v. some (full_cell v y)) {x = t + suc k} {y = suc t + k} (omega arith))
        h,
  )

module _ {A : Type 0} {r : Ring A} {pc : ℕ → Pc A} {xs : List A} (inv : Inv r pc xs)
    (rest : (i : ℕ) → pc i ≡ idle) where
  idle-Resting : (t : ℕ) → r.consumer_pos ≤ t → t < r.consumer_pos + r.capacity → Resting r xs t
  idle-Resting t lo hi = elim (inv.cells t lo hi) [
    | inl (i, e) ↦ absurd (none_ne_some t (sym (ap (slot r.capacity) (rest i)) ∙ e))
    | inr h ↦ h
  ]

  idle_elements :
      (k : ℕ) (x : A)
      → get_elem? (drop r.consumer_pos xs) k ≡ some x
      → look r (r.consumer_pos + k) ≡ some (full_cell (r.consumer_pos + k) x)
  idle_elements k x e =
      let n = length-drop r.consumer_pos xs in
      let less = get_elem?-some k (drop r.consumer_pos xs) x e in
      elim (idle-Resting (r.consumer_pos + k) (omega arith)
        (omega (arith, n, inv.logged, inv.ahead, inv.behind))) [
          | inl (before, (y, claimed, there)) ↦
              there
              ∙ ap (λ z. some (full_cell (r.consumer_pos + k) z))
                  (some_injective y x (sym claimed ∙ sym (get_elem?-drop r.consumer_pos k xs) ∙ e))
          | inr (behind, empty) ↦ absurd (omega (arith, n, inv.logged))
        ]

  idle-Repr : Repr r (drop r.consumer_pos xs)
  idle-Repr =
      let n = length-drop r.consumer_pos xs in
      record {
        shape = inv.shape;
        counted = omega (arith, n, inv.logged, inv.behind);
        fits = omega (arith, n, inv.logged, inv.ahead);
        cells =
            layout-Window r.buffer r.capacity r.consumer_pos
              (r.consumer_pos + length (drop r.consumer_pos xs))
              (r.capacity - length (drop r.consumer_pos xs)) (drop r.consumer_pos xs) refl
              idle_elements
              (λ k less.
                elim (idle-Resting (r.consumer_pos + length (drop r.consumer_pos xs) + k)
                  (omega arith) (omega (arith, n, inv.logged, inv.ahead))) [
                    | inl (before, found) ↦ absurd (omega (arith, n, inv.logged, inv.behind))
                    | inr (behind, free) ↦ free
                  ]);
      }

  idle_once : {c : ℕ} {rs : List (ℕ × A)} → Returned c pc xs rs → (k : ℕ) → k < c → times k rs ≡ 1
  idle_once v k less = elim (v.earlier k less) [
    | inl (i, e) ↦ absurd (none_ne_some k (sym (ap consuming (rest i)) ∙ e))
    | inr once ↦ once
  ]

module _ {A : Type 0} where
  -- Whatever steps any number of threads have taken in `TryPush` and `TryPop` on a new ring,
  -- whenever no call is under way, the ring holds the elements that were claimed, in the order of
  -- their tickets, less those of the tickets that consumers took, each ticket of the producers has
  -- one claimed element, and each ticket that consumers took was returned exactly once, if the
  -- capacity is at most 2^62 and the steps and the ring's capacity together are below 2^63.
  pub quiet_refines :
      (n : ℕ) (es : List (ℕ × Choice A)) (t : System A)
      → n ≤ 2 ^ 62
      → length es + (make {A = A} n).capacity < 2 ^ 63
      → steps (start_of (make n)) es ≡ some t
      → ((i : ℕ) → t.pc i ≡ idle)
      → Repr t.ring (drop t.ring.consumer_pos t.claimed)
        × (length t.claimed ≡ t.ring.producer_pos)
        × ((k : ℕ) → k < t.ring.consumer_pos → times k t.returned ≡ 1)
  unfolding make with_capacity
  quiet_refines n es t small fits run rest =
      let (u, e, g, room) =
        steps-Good es (start_of (make n)) (start_of-Good n small) (omega arith) in
      let same : u ≡ t = some_injective u t (sym e ∙ run) in
      let h : Good t = subst Good same g in
      (idle-Repr h.inv rest, h.inv.logged, idle_once h.inv rest h.returns)
