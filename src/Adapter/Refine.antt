-- ===== src/Adapter/Refine.antt =====
-- The calls of the adapter that do not block, one by one, against its specification.
use mathlib.Core.Path.{subst}
use cpp_mpmc_thread_pool.Base.{
  ℕ, suc, ◌+◌, ◌-◌, ◌<◌, ◌^◌, min, ◌≡◌, refl, ap, ◌∙◌, inl, inr, false, none, some, List, [], ◌∷◌,
  arith, ◌==◌, if◌then◌else◌, length, take, ltb, Bool-cases, ltb→lt, length-append, length-take,
  length-drop,
}
use cpp_mpmc_thread_pool.Base.Words.{add_size, sub_size}
use cpp_mpmc_thread_pool.Ring.{release_cell}
use cpp_mpmc_thread_pool.Ring.Repr.{Repr, InRange}
use cpp_mpmc_thread_pool.Ring.Fifo.{
  try_push-room, try_push-full, length_of_no_room, try_pop-nil, try_pop-cons, try_pop_consume-cons,
}
use cpp_mpmc_thread_pool.Ring.Batch.{
  try_push_batch_refines as push_batch, try_pop_batch_refines as pop_batch,
}
use cpp_mpmc_thread_pool.Adapter.{
  Adapter, not_empty_one, not_empty_all, not_full_one, capacity, count_pushed, count_discard,
  count_overwriting, try_push, try_pop, overwrite_oldest, overwrite_push, close_queue,
  try_push_batch, try_pop_batch, count_popped,
}
use cpp_mpmc_thread_pool.Adapter.Spec.{
  View, Models, Becomes, view_push, view_pop, view_pop_from, view_overwrite, view_overwrite_first,
  view_close, view_push_batch, view_pop_batch,
}

module _ {ℓ} {A : Type ℓ} {a : Adapter A} {v : View A} (m : Models a v)
    (small : InRange a.queue) where
  -- `TryPush`: refused when closed, counted as a discard when full, and otherwise at the end.
  pub try_push_refines :
      (x : A)
      → let (ok, w) = view_push (capacity a) v x in
        (b : Adapter A) × (try_push a x ≡ some (ok, b)) × Becomes a 1 b w
  unfolding try_push view_push
  try_push_refines x = elim (Bool-cases v.closed) [
    | inl is_closed ↦ (
      a,
      ground arith,
      record { models = ground arith; same_capacity = refl; tickets = omega arith },
    )
    | inr is_open ↦ elim (Bool-cases (ltb (length v.items) (capacity a))) [
      | inl room ↦
          let (q, e, n) = try_push-room m.holds small x (ltb→lt _ _ room) in
          (
            count_pushed a q 1 not_empty_one,
            ground (arith, e),
            ground (arith, n, m.holds.counted, length-append v.items (x ∷ [])),
          )
      | inr no_room ↦
          let e = try_push-full m.holds small x (length_of_no_room m.holds small no_room) in
          (count_discard a a.queue, ground (arith, e), ground arith)
    ]
  ]

module _ {ℓ} {A : Type ℓ} {a : Adapter A} (v : View A) (m : Models a v)
    (small : InRange a.queue) where
  pop_items :
      (xs : List A)
      → v.items ≡ xs
      → let (o, w) = view_pop_from (capacity a) xs v in
        (b : Adapter A) × (try_pop a ≡ some (o, b)) × Becomes a 0 b w
  unfolding try_pop view_pop_from
  pop_items [] e =
      let h = try_pop-nil (subst (Repr a.queue) e m.holds) small in
      (a, ground (arith, h), record { models = m; same_capacity = refl; tickets = omega arith })
  pop_items (x ∷ xs) e =
      let (h, n) = try_pop-cons x xs (subst (Repr a.queue) e m.holds) small in
      let k : length v.items ≡ suc (length xs) = ap length e in
      (
        record a {
          queue = release_cell a.queue a.queue.consumer_pos;
          pending_count = sub_size a.pending_count 1;
          signals = if a.pending_count == capacity a then not_full_one ∷ a.signals else a.signals;
        },
        ground (arith, h),
        ground (arith, n, k, m.holds.counted),
      )

  -- `TryPop`: the oldest item, or `false` on an empty queue, also after `Close`.
  pub try_pop_refines :
      let (o, w) = view_pop (capacity a) v in
      (b : Adapter A) × (try_pop a ≡ some (o, b)) × Becomes a 0 b w
  unfolding view_pop
  try_pop_refines = pop_items v.items refl

  overwrite_full :
      (x : A) (xs : List A)
      → v.items ≡ xs
      → v.closed ≡ false
      → length v.items ≡ capacity a
      → let (ok, old, w) = view_overwrite_first xs v x in
        (b : Adapter A) × (overwrite_oldest a x ≡ some (ok, old, b)) × Becomes a 1 b w
  unfolding overwrite_oldest view_overwrite_first
  overwrite_full x [] e is_open full_up = absurd (omega (arith, ap length e, m.holds.large))
  overwrite_full x (y ∷ ys) e is_open full_up =
      let k : length v.items ≡ suc (length ys) = ap length e in
      let h =
        try_pop_consume-cons (λ value tmp. some (some value)) none (some y) y ys refl
          (subst (Repr a.queue) e m.holds) small in
      let n = (try_pop-cons y ys (subst (Repr a.queue) e m.holds) small).1 in
      let (q, h', n') =
        try_push-room n.holds (omega (arith, n.same_capacity, n.tickets)) x
          (omega (arith, n.same_capacity, m.holds.large)) in
      (
        record a {
          queue = q;
          pending_count = add_size (sub_size a.pending_count 1) 1;
          signals = not_empty_one ∷ a.signals;
        },
        ground (arith, h, h', m.shut, is_open),
        record {
          models = record {
            holds = n'.holds;
            counted = omega (arith, k, m.counted, m.holds.counted, length-append ys (x ∷ []));
            discarded = m.discarded;
            shut = m.shut;
            signalled = ap (◌∷◌ not_empty_one) m.signalled;
          };
          same_capacity = n'.same_capacity ∙ n.same_capacity;
          tickets = omega (arith, n.tickets, n'.tickets);
        },
      )

  -- On an adapter that stands for a view, `OverwritePush` refuses on a closed queue, appends
  -- without taking anything out where there is room, and on a full queue takes out the oldest
  -- item, hands it back and appends the new one, if the positions are below 2^63.
  pub overwrite_push_refines :
      (x : A)
      → let (ok, old, w) = view_overwrite (capacity a) v x in
        (b : Adapter A) × (overwrite_push a x ≡ some (ok, old, b)) × Becomes a 1 b w
  unfolding overwrite_push view_overwrite
  overwrite_push_refines x = elim (Bool-cases v.closed) [
    | inl is_closed ↦ (
      a,
      ground arith,
      record { models = ground arith; same_capacity = refl; tickets = omega arith },
    )
    | inr is_open ↦ elim (Bool-cases (ltb (length v.items) (capacity a))) [
      | inl room ↦
          let (q, e, n) = try_push-room m.holds small x (ltb→lt _ _ room) in
          (
            count_overwriting a q,
            ground (arith, e),
            ground (arith, n, m.holds.counted, length-append v.items (x ∷ [])),
          )
      | inr no_room ↦
          let full_up = length_of_no_room m.holds small no_room in
          let e = try_push-full m.holds small x full_up in
          let (b, h, w) = overwrite_full x v.items refl is_open full_up in
          (b, ground (arith, e, h), ground (arith, w))
    ]
  ]

  pub close_queue-Models : Models (close_queue a) (view_close v)
  unfolding close_queue view_close
  close_queue-Models = ground arith

  -- `TryPushBatch`: as many items as fit, in order; none of the rest counts as a discard.
  pub try_push_batch_refines :
      (xs : List A)
      → a.queue.producer_pos + length xs + capacity a < 2 ^ 63
      → let (count, w) = view_push_batch (capacity a) v xs in
        (b : Adapter A) × (try_push_batch a xs ≡ some (count, b)) × Becomes a (length xs) b w
  unfolding try_push_batch view_push_batch
  try_push_batch_refines xs fits = elim (Bool-cases v.closed) [
    | inl is_closed ↦ (
      a,
      ground arith,
      record { models = ground arith; same_capacity = refl; tickets = omega arith },
    )
    | inr is_open ↦
        let (q, e, n) = push_batch xs m.holds fits in
        let count = min (length xs) (capacity a - length v.items) in
        (
          if ltb 0 count then count_pushed a q count not_empty_all else record a { queue = q },
          ground (arith, e),
          ground (
            arith,
            n,
            m.holds.counted,
            length-append v.items (take (capacity a - length v.items) xs),
            length-take (capacity a - length v.items) xs,
          ),
        )
  ]

  -- `TryPopBatch`: the oldest items, at most `max_count` of them.
  pub try_pop_batch_refines :
      (n : ℕ)
      → let (out, count, w) = view_pop_batch (capacity a) v n in
        (b : Adapter A) × (try_pop_batch a n ≡ some (out, count, b)) × Becomes a 0 b w
  unfolding try_pop_batch view_pop_batch
  try_pop_batch_refines n =
      let (q, e, c) = pop_batch n v.items m.holds small in
      (
        count_popped a q (min n (length v.items)),
        ground (arith, e),
        ground (arith, c, m.holds.counted, m.holds.fits, length-drop n v.items),
      )
