-- ===== src/Ring/Fifo.antt =====
-- The ring against its specification, a bounded queue as a list, oldest element first.
use cpp_mpmc_thread_pool.Base.{
  ℕ, ◌+◌, ◌≤◌, ◌<◌, ◌^◌, ◌≡◌, refl, ◌∙◌, inl, inr, Option, none, some, List, [], ◌∷◌, ◌++◌, false,
  arith, length, ltb, if◌then◌else◌, Bool-cases, ltb→lt, ltb→ge,
}
use cpp_mpmc_thread_pool.Ring.{
  Ring, PushStatus, pushed, full, claim_push, try_push, release_cell, take_element, try_pop,
  try_pop_consume, run_callback, consumed, empty,
}
use cpp_mpmc_thread_pool.Ring.Repr.{free_cell, Repr, InRange}
use cpp_mpmc_thread_pool.Ring.Push.{do_push-room, do_push-full, claim_push-Repr}
use cpp_mpmc_thread_pool.Ring.Pop.{do_pop-cons, do_pop-nil, release_cell-Repr}

module _ {ℓ} {A : Type ℓ} where
  unfoldable pub spec_push : ℕ → List A → A → PushStatus × List A
  spec_push cap xs x = if ltb (length xs) cap then (pushed, xs ++ x ∷ []) else (full, xs)

  unfoldable pub spec_pop : List A → Option A × List A
  spec_pop [] = (none, [])
  spec_pop (x ∷ xs) = (some x, xs)

-- A call of a client, and what it sees.
pub data Op {ℓ} (A : Type ℓ) : Type ℓ where
  push_op : A → Op A
  pop_op : Op A

pub data Reply {ℓ} (A : Type ℓ) : Type ℓ where
  push_reply : PushStatus → Reply A
  pop_reply : Option A → Reply A

module _ {ℓ} {A : Type ℓ} where
  unfoldable pub run : Ring A → List (Op A) → Option (List (Reply A) × Ring A)
  run r [] = some ([], r)
  run r (push_op x ∷ ops) = elim (try_push r x) [
    | none ↦ none
    | some (s, q) ↦ elim (run q ops) [ none ↦ none | some (ys, q') ↦ some (push_reply s ∷ ys, q') ]
  ]
  run r (pop_op ∷ ops) = elim (try_pop r) [
    | none ↦ none
    | some (o, q) ↦ elim (run q ops) [ none ↦ none | some (ys, q') ↦ some (pop_reply o ∷ ys, q') ]
  ]

  unfoldable pub spec_run : ℕ → List A → List (Op A) → List (Reply A) × List A
  unfolding spec_push spec_pop
  spec_run cap xs [] = ([], xs)
  spec_run cap xs (push_op x ∷ ops) =
      let (s, ys) = spec_push cap xs x in
      let (rest, zs) = spec_run cap ys ops in (push_reply s ∷ rest, zs)
  spec_run cap xs (pop_op ∷ ops) =
      let (o, ys) = spec_pop xs in let (rest, zs) = spec_run cap ys ops in (pop_reply o ∷ rest, zs)

  -- The new ring `q` holds `xs`, and at most `n` more tickets have been handed out.
  pub record After (r : Ring A) (n : ℕ) (q : Ring A) (xs : List A) : Type ℓ where
    pub holds : Repr q xs
    pub same_capacity : q.capacity ≡ r.capacity
    pub tickets : q.producer_pos ≤ r.producer_pos + n

  cons_of_full :
      (xs : List A) (cap : ℕ) → 2 ≤ cap → length xs ≡ cap → (x : A) × (ys : List A) × (xs ≡ x ∷ ys)
  cons_of_full [] cap large e = absurd (omega arith)
  cons_of_full (x ∷ xs) cap large e = (x, xs, refl)

  module _ {r : Ring A} {xs : List A} (v : Repr r xs) (small : InRange r) where
    pub try_push-room :
        (x : A)
        → length xs < r.capacity
        → (q : Ring A) × (try_push r x ≡ some (pushed, q)) × After r 1 q (xs ++ x ∷ [])
    unfolding try_push claim_push
    try_push-room x room = (
      (claim_push r (free_cell r.producer_pos) (some x) r.producer_pos).1,
      do_push-room v 1 (some x) small room,
      record {
        holds = claim_push-Repr v x small room;
        same_capacity = refl;
        tickets = omega arith;
      },
    )

    pub try_push-full : (x : A) → length xs ≡ r.capacity → try_push r x ≡ some (full, r)
    unfolding try_push
    try_push-full x e =
        let (y, ys, c) = cons_of_full xs r.capacity v.large e in
        do_push-full v 1 (some x) y ys small c e

    -- Where the ring has no room its queue is as long as the capacity.
    pub length_of_no_room : ltb (length xs) r.capacity ≡ false → length xs ≡ r.capacity
    length_of_no_room h = omega (arith, ltb→ge _ _ h, v.fits)

    -- `TryPush` appends where there is room, and changes nothing on a full ring.
    pub try_push_refines :
        (x : A)
        → let (s, ys) = spec_push r.capacity xs x in
          (q : Ring A) × (try_push r x ≡ some (s, q)) × After r 1 q ys
    unfolding spec_push
    try_push_refines x = elim (Bool-cases (ltb (length xs) r.capacity)) [
      | inl room ↦ rw room (try_push-room x (ltb→lt _ _ room))
      | inr no_room ↦ rw no_room (
        r,
        try_push-full x (length_of_no_room no_room),
        record { holds = v; same_capacity = refl; tickets = omega arith },
      )
    ]

  module _ {r : Ring A} where
    pub try_pop-nil : Repr r [] → InRange r → try_pop r ≡ some (none, r)
    unfolding try_pop
    try_pop-nil v small = do_pop-nil 1 take_element (none, r) v small

    pub try_pop-cons :
        (x : A) (xs : List A)
        → Repr r (x ∷ xs)
        → InRange r
        → (try_pop r ≡ some (some x, release_cell r r.consumer_pos))
          × After r 0 (release_cell r r.consumer_pos) xs
    unfolding try_pop take_element release_cell
    try_pop-cons x xs v small = (
      do_pop-cons 1 take_element (none, r) x xs v small,
      record {
        holds = release_cell-Repr x xs v small;
        same_capacity = refl;
        tickets = omega arith;
      },
    )

    -- `TryPopConsume` hands the oldest element to a callback that does not throw.
    pub try_pop_consume-cons {κ} :
        {S : Type κ} (callback : A → S → Option S) (s s' : S) (x : A) (xs : List A)
        → callback x s ≡ some s'
        → Repr r (x ∷ xs)
        → InRange r
        → try_pop_consume r callback s ≡ some (consumed s', release_cell r r.consumer_pos)
    unfolding try_pop_consume run_callback
    try_pop_consume-cons callback s s' x xs e v small =
        do_pop-cons 1 (run_callback callback s) (empty, r) x xs v small ∙ ground (arith, e)

  -- `TryPop` gives the oldest element and removes it, and `false` on an empty ring.
  pub try_pop_refines :
      {r : Ring A} (xs : List A)
      → Repr r xs
      → InRange r
      → let (o, ys) = spec_pop xs in (q : Ring A) × (try_pop r ≡ some (o, q)) × After r 0 q ys
  unfolding spec_pop
  try_pop_refines {r} [] v small =
      (r, try_pop-nil v small, record { holds = v; same_capacity = refl; tickets = omega arith })
  try_pop_refines {r} (x ∷ xs) v small =
      (release_cell r r.consumer_pos, (try_pop-cons x xs v small).0, (try_pop-cons x xs v small).1)

  -- Any sequence of `TryPush` and `TryPop` on a ring that holds `xs` gives exactly the replies of
  -- a bounded first-in-first-out queue that starts as `xs`, without a fault or a retry loop that
  -- runs out, and leaves a ring that holds what that queue holds, as long as no position gets to
  -- 2^63 less the capacity.
  pub run_refines :
      (ops : List (Op A)) {r : Ring A} (xs : List A)
      → Repr r xs
      → r.producer_pos + length ops + r.capacity < 2 ^ 63
      → let (replies, ys) = spec_run r.capacity xs ops in
        (q : Ring A) × (run r ops ≡ some (replies, q)) × Repr q ys
  unfolding run spec_run
  run_refines [] {r} xs v small = (r, refl, v)
  run_refines (push_op x ∷ ops) {r} xs v small =
      let (q, e, n) = try_push_refines v (omega arith) x in
      let (q', e', v') =
        run_refines ops (spec_push r.capacity xs x).1 n.holds
          (omega (arith, n.tickets, n.same_capacity)) in
      (q', ground (arith, e, e', n.same_capacity), ground (arith, v', n.same_capacity))
  run_refines (pop_op ∷ ops) {r} xs v small =
      let (q, e, n) = try_pop_refines xs v (omega arith) in
      let (q', e', v') =
        run_refines ops (spec_pop xs).1 n.holds (omega (arith, n.tickets, n.same_capacity)) in
      (q', ground (arith, e, e', n.same_capacity), ground (arith, v', n.same_capacity))
