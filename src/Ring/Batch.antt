-- ===== src/Ring/Batch.antt =====
-- `TryPushBatch` and `TryPopBatch` of include/mpmc/bounded_circular_queue.hpp.
use mathlib.Core.Path.{subst, ap₂}
use cpp_mpmc_thread_pool.Base.{
  ℕ, zero, suc, ◌+◌, ◌-◌, ◌<◌, ◌^◌, min, ◌≡◌, refl, sym, ap, ◌∙◌, inl, inr, some, List, [], ◌∷◌,
  ◌++◌, append-nil, append_assoc, arith, length, take, drop, ltb, Bool-cases, ltb→lt, length-append,
  take-nil,
}
use cpp_mpmc_thread_pool.Ring.{Ring, push_batch_from, try_push_batch, pop_batch_from, try_pop_batch}
use cpp_mpmc_thread_pool.Ring.Repr.{Repr, InRange}
use cpp_mpmc_thread_pool.Ring.Fifo.{
  After, try_push-room, try_push-full, length_of_no_room, try_pop-nil, try_pop-cons,
}

module _ {ℓ} {A : Type ℓ} where
  take-zero : (n : ℕ) (xs : List A) → n ≡ 0 → take n xs ≡ []
  take-zero n xs e = ap (λ k. take k xs) e

  take-cons : (n : ℕ) (x : A) (xs : List A) → 0 < n → take n (x ∷ xs) ≡ x ∷ take (n - 1) xs
  take-cons zero x xs h = absurd (omega arith)
  take-cons (suc n) x xs h = ap (λ k. x ∷ take k xs) (omega arith)

  push_batch_from_lem :
      (ys : List A) (count : ℕ) {r : Ring A} {xs : List A}
      → Repr r xs
      → r.producer_pos + length ys + r.capacity < 2 ^ 63
      → (q : Ring A) × (push_batch_from r ys count
          ≡ some (count + min (length ys) (r.capacity - length xs), q))
        × After r (length ys) q (xs ++ take (r.capacity - length xs) ys)
  unfolding push_batch_from
  push_batch_from_lem [] count {r} {xs} v small = (
    r,
    ap (λ n. some (n, r)) (omega arith),
    record {
      holds =
          subst (Repr r) (sym (ap (◌++◌ xs) (take-nil (r.capacity - length xs)) ∙ append-nil xs)) v;
      same_capacity = refl;
      tickets = omega arith;
    },
  )
  push_batch_from_lem (y ∷ ys) count {r} {xs} v small =
      elim (Bool-cases (ltb (length xs) r.capacity)) [
        | inl room ↦
            let (q, e, n) = try_push-room v (omega arith) y (ltb→lt _ _ room) in
            let (q', e', n') =
              push_batch_from_lem ys (count + 1) n.holds
                (omega (arith, n.tickets, n.same_capacity)) in
            (
              q',
              rw (e, push_batch_from)
                  (e'
                    ∙ ap (λ k. some (k, q'))
                        (omega
                          (arith, ltb→lt _ _ room, n.same_capacity, length-append xs (y ∷ [])))),
              record {
                holds =
                    subst (Repr q')
                      (append_assoc xs (y ∷ []) _
                        ∙ ap (λ k. xs ++ y ∷ take k ys) {x = q.capacity - length (xs ++ y ∷ [])}
                            {y = r.capacity - length xs - 1}
                            (omega (arith, n.same_capacity, length-append xs (y ∷ [])))
                        ∙ ap (◌++◌ xs) (
                            sym (
                              take-cons (r.capacity - length xs) y ys
                                (omega (arith, ltb→lt _ _ room)))))
                      n'.holds;
                same_capacity = n'.same_capacity ∙ n.same_capacity;
                tickets = omega (arith, n.tickets, n'.tickets);
              },
            )
        | inr no_room ↦
            let full_up = length_of_no_room v (omega arith) no_room in
            (
              r,
              rw (try_push-full v (omega arith) y full_up, push_batch_from)
                  (ap (λ k. some (k, r)) (omega (arith, full_up))),
              record {
                holds =
                    subst (Repr r)
                      (sym (
                        ap (◌++◌ xs)
                          (take-zero (r.capacity - length xs) (y ∷ ys) (omega (arith, full_up)))
                        ∙ append-nil xs))
                      v;
                same_capacity = refl;
                tickets = omega arith;
              },
            )
      ]

  -- On a ring that holds `xs`, `TryPushBatch` of `ys` returns how many of `ys` fit, which is at
  -- most their number and the free room, and leaves a ring with that prefix of `ys` behind `xs`,
  -- if its positions stay below 2^63.
  pub try_push_batch_refines :
      {r : Ring A} {xs : List A} (ys : List A)
      → Repr r xs
      → r.producer_pos + length ys + r.capacity < 2 ^ 63
      → (q : Ring A) × (try_push_batch r ys ≡ some (min (length ys) (r.capacity - length xs), q))
        × After r (length ys) q (xs ++ take (r.capacity - length xs) ys)
  unfolding try_push_batch
  try_push_batch_refines {r} {xs} ys v small =
      let (q, e, n) = push_batch_from_lem ys 0 v small in
      (q, e ∙ ap (λ k. some (k, q)) (omega arith), n)

  pop_batch_from_lem :
      (n : ℕ) (xs out : List A) (count : ℕ) {r : Ring A}
      → Repr r xs
      → InRange r
      → (q : Ring A) × (pop_batch_from n r out count
          ≡ some (out ++ take n xs, count + min n (length xs), q))
        × After r 0 q (drop n xs)
  unfolding pop_batch_from
  pop_batch_from_lem zero xs out count {r} v small = (
    r,
    ap₂ (λ o k. some (o, k, r)) (sym (append-nil out)) (omega arith),
    record { holds = v; same_capacity = refl; tickets = omega arith },
  )
  pop_batch_from_lem (suc n) [] out count {r} v small = (
    r,
    rw (try_pop-nil v small, pop_batch_from)
        (ap₂ (λ o k. some (o, k, r)) (sym (append-nil out)) (omega arith)),
    record { holds = v; same_capacity = refl; tickets = omega arith },
  )
  pop_batch_from_lem (suc n) (x ∷ xs) out count {r} v small =
      let (e, a) = try_pop-cons x xs v small in
      let (q, e', a') =
        pop_batch_from_lem n xs (out ++ x ∷ []) (count + 1) a.holds
          (omega (arith, a.tickets, a.same_capacity)) in
      (
        q,
        rw (e, pop_batch_from)
            (e'
              ∙ ap₂ (λ o k. some (o, k, q)) (append_assoc out (x ∷ []) (take n xs)) (omega arith)),
        record {
          holds = a'.holds;
          same_capacity = a'.same_capacity ∙ a.same_capacity;
          tickets = omega (arith, a.tickets, a'.tickets);
        },
      )

  -- On a ring that holds `xs`, `TryPopBatch` of at most `n` elements writes the first `n` of `xs`,
  -- or all of them, in order, returns their number, and leaves a ring with the rest, if its
  -- positions are below 2^63.
  pub try_pop_batch_refines :
      {r : Ring A} (n : ℕ) (xs : List A)
      → Repr r xs
      → InRange r
      → (q : Ring A) × (try_pop_batch r n ≡ some (take n xs, min n (length xs), q))
        × After r 0 q (drop n xs)
  unfolding try_pop_batch
  try_pop_batch_refines {r} n xs v small =
      let (q, e, a) = pop_batch_from_lem n xs [] 0 v small in
      (q, e ∙ ap (λ k. some (take n xs, k, q)) (omega arith), a)
