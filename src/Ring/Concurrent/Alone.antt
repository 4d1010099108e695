-- ===== src/Ring/Concurrent/Alone.antt =====
-- A thread that runs while the others stand still ends its call.
use mathlib.Core.Path.{subst}
use cpp_mpmc_thread_pool.Base.{
  ℕ, zero, suc, ◌+◌, ◌-◌, ◌^◌, ◌≤◌, ◌<◌, ◌≡◌, refl, sym, ap, ◌∙◌, inl, inr, false, some, List, [],
  ◌∷◌, ◌++◌, arith, length, Option-cases,
}
use cpp_mpmc_thread_pool.Ring.{Ring}
use cpp_mpmc_thread_pool.Ring.Concurrent.{
  Pc, idle, push_load, push_claim, push_build, push_publish, pop_load, pop_claim, pop_move,
  pop_release, Choice, go, System, start_of, access, steps,
}
use cpp_mpmc_thread_pool.Ring.Concurrent.Cells.{some_injective}
use cpp_mpmc_thread_pool.Ring.Concurrent.Good.{Good}
use cpp_mpmc_thread_pool.Ring.Concurrent.Safety.{access-Next}
use cpp_mpmc_thread_pool.Ring.{make, with_capacity}
use cpp_mpmc_thread_pool.Ring.Concurrent.Safety.{start_of-Good, steps-Good}
use cpp_mpmc_thread_pool.Ring.Concurrent.Rank.{rank, rank_le}
use cpp_mpmc_thread_pool.Ring.Concurrent.Nearer.{at-Nearer}

module _ {A : Type 0} where
  -- `n` steps of thread `i` only, whose `compare_exchange_weak` fails for no other reason than a
  -- position that has moved.
  abbrev pub alone : ℕ → ℕ → List (ℕ × Choice A)
  alone i zero = []
  alone i (suc n) = (i, go false) ∷ alone i n

  rank_zero : (r : Ring A) (q : Pc A) → rank r q ≤ 0 → q ≡ idle
  rank_zero r idle e = refl
  rank_zero r (push_load x at) e = absurd (ground arith)
  rank_zero r (push_claim x at seq) e = absurd (ground arith)
  rank_zero r (push_build x at) e = absurd (omega arith)
  rank_zero r (push_publish x at) e = absurd (omega arith)
  rank_zero r (pop_load at) e = absurd (ground arith)
  rank_zero r (pop_claim at seq) e = absurd (ground arith)
  rank_zero r (pop_move at) e = absurd (omega arith)
  rank_zero r (pop_release at x) e = absurd (omega arith)

  steps_alone :
      (n : ℕ) (s : System A) (i : ℕ)
      → Good s
      → s.ring.producer_pos + n + s.ring.capacity < 2 ^ 63
      → rank s.ring (s.pc i) ≤ n
      → (t : System A) × (steps s (alone i n) ≡ some t) × (t.pc i ≡ idle)
  unfolding steps
  steps_alone zero s i g small le = (s, refl, rank_zero s.ring (s.pc i) le)
  steps_alone (suc n) s i g small le =
      let (t, e, next) = access-Next s g (omega arith) i (go false) in
      let (u, f, nearer) = at-Nearer s g (omega arith) i (s.pc i) refl (g.inv.fine i) in
      let same : u ≡ t = some_injective u t (sym f ∙ e) in
      let near : rank t.ring (t.pc i) ≤ rank s.ring (s.pc i) - 1 =
        subst (λ (v : System A). rank v.ring (v.pc i) ≤ rank s.ring (s.pc i) - 1) same nearer in
      let (v, rest, ended) =
        steps_alone n t i next.good (omega (arith, next.same_capacity, next.tickets))
          (omega arith) in
      (v, ground (arith, e, rest), ended)

  steps-append :
      (es fs : List (ℕ × Choice A)) (s t : System A)
      → steps s es ≡ some t
      → steps s (es ++ fs) ≡ steps t fs
  unfolding steps
  steps-append [] fs s t e = ap (λ u. steps u fs) (some_injective s t e)
  steps-append ((i, c) ∷ es) fs s t e = elim (Option-cases (access s i (s.pc i) c)) [
    | inl missing ↦ absurd (ground (arith, missing))
    | inr (u, h) ↦
        let run : steps u es ≡ some t = ground (arith, h, e) in
        ground (arith, h, steps-append es fs u t run)
  ]

  -- Wherever any steps of any threads on a new ring have left the threads, in the middle of calls
  -- as well, a thread that takes six more steps while the others stand still has ended its call,
  -- if the capacity is at most 2^62, the steps and the ring's capacity together are below 2^63,
  -- and `compare_exchange_weak` does not fail spuriously in these six steps.
  pub steps_alone_end :
      (n : ℕ) (es : List (ℕ × Choice A)) (i : ℕ)
      → n ≤ 2 ^ 62
      → length es + 6 + (make {A = A} n).capacity < 2 ^ 63
      → (t : System A) × (steps (start_of (make n)) (es ++ alone i 6) ≡ some t) × (t.pc i ≡ idle)
  unfolding make with_capacity
  steps_alone_end n es i small fits =
      let (s, e, g, room) =
        steps-Good es (start_of (make n)) (start_of-Good n small) (omega arith) in
      let (t, f, ended) = steps_alone 6 s i g (omega arith) (rank_le s.ring (s.pc i)) in
      (t, steps-append es (alone i 6) (start_of (make n)) s e ∙ f, ended)
