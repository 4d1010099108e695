-- ===== src/Ring/Concurrent/Safety.antt =====
-- Every schedule of the threads on a ring.
use native.Mathlib.Nat.{mod-eq_of_lt}
use native.Mathlib.Decide.{dec_lt}
use cpp_mpmc_thread_pool.Base.{
  ℕ, zero, suc, ◌+◌, ◌^◌, ◌≤◌, ◌<◌, ◌≡◌, refl, sym, ap, ◌∙◌, inl, inr, some, List, [], ◌∷◌, arith,
  length, get_elem?,
}
use cpp_mpmc_thread_pool.Ring.{Cell, make, with_capacity, new_cells, round_up_to_pow2}
use cpp_mpmc_thread_pool.Ring.Repr.{free_cell}
use cpp_mpmc_thread_pool.Ring.Capacity.{length-new_cells, new_cells_at, make-Repr}
use cpp_mpmc_thread_pool.Ring.Concurrent.{
  Pc, idle, push_load, push_claim, push_build, push_publish, pop_load, pop_claim, pop_move,
  pop_release, Choice, call_push, call_pop, go, System, start_of, goto, access, steps,
}
use cpp_mpmc_thread_pool.Ring.Concurrent.Invariant.{
  slot, consuming, Fine, times, AllClaimed, Inv, Returned,
}
use cpp_mpmc_thread_pool.Ring.Concurrent.Cells.{some_injective}
use cpp_mpmc_thread_pool.Ring.Concurrent.Frame.{none_ne_some}
use cpp_mpmc_thread_pool.Ring.Concurrent.Good.{Good, Next, goto-Next}
use cpp_mpmc_thread_pool.Ring.Concurrent.Producer.{
  push_load-Next, push_claim-Next, push_build-Next, push_publish-Next,
}
use cpp_mpmc_thread_pool.Ring.Concurrent.Consumer.{
  pop_load-Next, pop_claim-Next, pop_move-Next, pop_release-Next,
}

module _ {A : Type 0} (s : System A) (g : Good s)
    (small : suc s.ring.producer_pos + s.ring.capacity < 2 ^ 63) (i : ℕ) where
  idle-Next :
      (c : Choice A) → s.pc i ≡ idle → (t : System A) × (access s i idle c ≡ some t) × Next s t
  unfolding access
  idle-Next (call_push x) e = (
    goto s i (push_load x s.ring.producer_pos),
    refl,
    goto-Next s g i (push_load x s.ring.producer_pos) (ap (slot s.ring.capacity) e) (ap consuming e)
        refl refl (omega arith),
  )
  idle-Next call_pop e = (
    goto s i (pop_load s.ring.consumer_pos),
    refl,
    goto-Next s g i (pop_load s.ring.consumer_pos) (ap (slot s.ring.capacity) e) (ap consuming e)
        refl refl (omega arith),
  )
  idle-Next (go b) e = (s, refl, record { good = g; same_capacity = refl; tickets = omega arith })

  at-Next :
      (q : Pc A) (c : Choice A)
      → s.pc i ≡ q
      → Fine s.ring s.claimed q
      → (t : System A) × (access s i q c ≡ some t) × Next s t
  at-Next idle c e f = idle-Next c e
  at-Next (push_load x at) c e f = push_load-Next s g small i x at c e f
  at-Next (push_claim x at seq) c e f = push_claim-Next s g small i x at seq c e f
  at-Next (push_build x at) c e f = push_build-Next s g small i x at c e f
  at-Next (push_publish x at) c e f = push_publish-Next s g small i x at c e f
  at-Next (pop_load at) c e f = pop_load-Next s g small i at c e f
  at-Next (pop_claim at seq) c e f = pop_claim-Next s g small i at seq c e f
  at-Next (pop_move at) c e f = pop_move-Next s g small i at c e f
  at-Next (pop_release at x) c e f = pop_release-Next s g small i at x c e f

  pub access-Next : (c : Choice A) → (t : System A) × (access s i (s.pc i) c ≡ some t) × Next s t
  access-Next c = at-Next (s.pc i) c refl (g.inv.fine i)

pub get_elem?-some :
    {C : Type 0} (k : ℕ) (xs : List C) (c : C) → get_elem? xs k ≡ some c → k < length xs
get_elem?-some k [] c e = absurd (cc)
get_elem?-some zero (x ∷ xs) c e = omega arith
get_elem?-some (suc k) (x ∷ xs) c e = omega (arith, get_elem?-some k xs c e)

times_le_one :
    {A : Type 0} {c : ℕ} {pc : ℕ → Pc A} {xs : List A} {rs : List (ℕ × A)}
    → Returned c pc xs rs
    → (k : ℕ) → times k rs ≤ 1
times_le_one {c = c} v k = elim (dec_lt k c) [
  | no more ↦ omega (arith, v.later k (omega arith))
  | yes less ↦ elim (v.earlier k less) [
    | inl (i, h) ↦ omega (arith, v.pending i k h)
    | inr once ↦ omega (arith, once)
  ]
]

module _ {A : Type 0} where
  pub steps-Good :
      (es : List (ℕ × Choice A)) (s : System A)
      → Good s
      → s.ring.producer_pos + length es + s.ring.capacity < 2 ^ 63
      → (t : System A) × (steps s es ≡ some t)
        × Good t
        × (t.ring.producer_pos + t.ring.capacity
            ≤ s.ring.producer_pos + length es + s.ring.capacity)
  unfolding steps
  steps-Good [] s g small = (s, refl, g, omega arith)
  steps-Good ((i, c) ∷ es) s g small =
      let (t, e, n) = access-Next s g (omega arith) i c in
      let (u, rest, h, room) = steps-Good es t n.good (omega (arith, n.same_capacity, n.tickets)) in
      (u, ground (arith, e, rest), h, omega (arith, n.same_capacity, n.tickets))

  start_of-Inv : (n : ℕ) → n ≤ 2 ^ 62 → Inv {A = A} (make n) (λ i. idle) []
  unfolding make with_capacity
  start_of-Inv n small =
      let shape = (make-Repr A n small).0.shape in
      record {
        shape = shape;
        behind = omega arith;
        ahead = omega arith;
        logged = refl;
        bounded = λ k c e.
            let lt = get_elem?-some k (new_cells 0 (round_up_to_pow2 n)) c e in
            let here =
              new_cells_at A 0 (round_up_to_pow2 n) k
                (omega (arith, lt, length-new_cells A 0 (round_up_to_pow2 n))) in
            omega (
              arith,
              lt,
              length-new_cells A 0 (round_up_to_pow2 n),
              ap (λ (c : Cell A). c.seq) (some_injective c (free_cell (0 + k)) (sym e ∙ here)),
            );
        fine = λ i. tt;
        alone = λ i j w e f. absurd (none_ne_some w e);
        cells = λ t lo hi. inr (
            inr (
              omega arith,
              ap (get_elem? (new_cells 0 (round_up_to_pow2 n)))
                    (mod-eq_of_lt {n = t} {m = round_up_to_pow2 n} (omega arith))
                  ∙ new_cells_at A 0 (round_up_to_pow2 n) t (omega arith)
                  ∙ ap (λ u. some (free_cell u)) {x = 0 + t} {y = t} (omega arith),
            ));
      }

  pub start_of-Good : (n : ℕ) → n ≤ 2 ^ 62 → Good (start_of (make {A = A} n))
  unfolding make with_capacity
  start_of-Good n small = record {
    inv = start_of-Inv n small;
    returns = record {
      elements = tt;
      later = λ t le. refl;
      pending = λ i t e. absurd (none_ne_some t e);
      earlier = λ t lt. absurd (omega arith);
    };
  }

  -- Whatever steps any number of threads take in `TryPush` and `TryPop` on a new ring, in whatever
  -- order and with whatever spurious failures of `compare_exchange_weak`, no step faults, the
  -- producers are from 0 to the capacity ahead of the consumers, each ticket of the producers has
  -- one claimed element, every call of `TryPop` that has returned an element returned the one that
  -- was claimed for its ticket, and no ticket was returned twice, if the capacity is at most 2^62
  -- and the steps and the ring's capacity together are below 2^63.
  pub steps_safe :
      (n : ℕ) (es : List (ℕ × Choice A))
      → n ≤ 2 ^ 62
      → length es + (make {A = A} n).capacity < 2 ^ 63
      → (t : System A) × (steps (start_of (make n)) es ≡ some t)
        × (t.ring.consumer_pos ≤ t.ring.producer_pos)
        × (t.ring.producer_pos ≤ t.ring.consumer_pos + t.ring.capacity)
        × (length t.claimed ≡ t.ring.producer_pos)
        × AllClaimed t.claimed t.returned
        × ((k : ℕ) → times k t.returned ≤ 1)
  unfolding make with_capacity
  steps_safe n es small fits =
      let (t, e, g, room) =
        steps-Good es (start_of (make n)) (start_of-Good n small) (omega arith) in
      (t, e, g.inv.behind, g.inv.ahead, g.inv.logged, g.returns.elements, times_le_one g.returns)
