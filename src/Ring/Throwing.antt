-- ===== src/Ring/Throwing.antt =====
-- A constructor that throws in `DoPush`. The handler writes the sequence number back, but the ticket
-- stays taken: the cell waits for a producer that never comes again.
use native.Mathlib.Nat.{add-mod_right}
use mathlib.Core.Path.{subst}
use cpp_mpmc_thread_pool.Base.{
  ℕ, zero, suc, ◌+◌, ◌-◌, ◌%◌, ◌<◌, ◌^◌, ◌≡◌, refl, sym, ap, ◌∙◌, none, some, List, [], ◌∷◌, ◌++◌,
  arith, length, get_elem?, set, length-append,
}
use cpp_mpmc_thread_pool.Base.Words.{add_size}
use cpp_mpmc_thread_pool.Ring.{
  Cell, Ring, pushed, full, threw, cell_at, claim_push, try_push_with, try_push, take_element,
  try_pop,
}
use cpp_mpmc_thread_pool.Ring.Window.{Window, Window-lookup, Window-set}
use cpp_mpmc_thread_pool.Ring.Repr.{
  free_cell, filled, free, layout, Shape, Repr, InRange, length-filled, length-layout, cell_at-mod,
  put_cell-mod, put_cell-Shape,
}
use cpp_mpmc_thread_pool.Ring.Push.{set-layout, do_push-claims, do_push-refuses, do_push-room}
use cpp_mpmc_thread_pool.Ring.Pop.{do_pop-refuses}
use cpp_mpmc_thread_pool.Ring.Fifo.{Op, push_op, pop_op, Reply, push_reply, pop_reply, run}

-- The cell at `consumer_pos` is free although its ticket is taken; `ys` stand behind it.
record Dead {ℓ} {A : Type ℓ} (r : Ring A) (ys : List A) : Type ℓ where
  shape : Shape r
  open shape use *
  counted : r.producer_pos ≡ suc (r.consumer_pos + length ys)
  fits : length ys < r.capacity
  cells :
      Window r.buffer r.capacity r.consumer_pos
        (free_cell r.consumer_pos ∷ layout (suc r.consumer_pos) ys (r.capacity - 1 - length ys))

module _ {ℓ} {A : Type ℓ} {r : Ring A} where
  throw-Dead :
      Repr r []
      → InRange r
      → (q : Ring A) × (try_push_with r none ≡ some (threw, q))
        × Dead q []
        × (q.capacity ≡ r.capacity)
        × (q.producer_pos ≡ suc r.producer_pos)
  unfolding try_push_with claim_push
  throw-Dead v small = (
    (claim_push r (free_cell p) none p).1,
    do_push-room v 1 none small (omega (arith, v.large)),
    record {
      shape = put_cell-Shape v.shape p (add_size p 1) c (free_cell p);
      counted = omega (arith, v.counted);
      fits = omega (arith, v.large);
      cells =
          subst (λ b. Window b cap c (free_cell c ∷ layout (suc c) [] (cap - 1 - 0)))
            (sym (put_cell-mod v.shape p (free_cell p))) (subst (Window written cap c) same write);
    },
    refl,
    omega arith,
  )
    where
      p : ℕ
      p = r.producer_pos

      c : ℕ
      c = r.consumer_pos

      cap : ℕ
      cap = r.capacity

      written : List (Cell A)
      written = set r.buffer (p % cap) (free_cell p)

      more : cap - 0 ≡ suc (cap - 1 - 0)
      more = omega (arith, v.large)

      write : Window written cap c (set (layout {A = A} c [] (cap - 0)) 0 (free_cell p))
      write =
          Window-set r.buffer cap p c 0 (free_cell p) (layout c [] (cap - 0)) v.counted v.sized
            (omega (arith, length-layout {A = A} c [] (cap - 0)))
            (omega (arith, length-layout {A = A} c [] (cap - 0), v.large)) v.cells

      same :
          ◌≡◌ {A = List (Cell A)}
            (set (layout c [] (cap - 0)) 0 (free_cell p))
            (free_cell c ∷ layout (suc c) [] (cap - 1 - 0))
      same =
          ap (λ n. set (layout c [] n) 0 (free_cell p)) more
          ∙ ap (λ t. free_cell t ∷ free (suc (c + 0)) (cap - 1 - 0)) {x = p} {y = c}
              (omega (arith, v.counted))
          ∙ ap (λ u. free_cell c ∷ free u (cap - 1 - 0)) {x = suc (c + 0)} {y = suc c + 0}
              (omega arith)

  stuck_pop : {ys : List A} → Dead r ys → InRange r → try_pop r ≡ some (none, r)
  unfolding try_pop
  stuck_pop v small =
      do_pop-refuses r 1 take_element (none, r) (cell_at-mod v.shape r.consumer_pos ∙ v.cells.0)
        (omega (arith, v.counted, v.large))

  -- The cells that are left take elements as before.
  stuck_push-room :
      {ys : List A} (y : A)
      → Dead r ys
      → InRange r
      → suc (length ys) < r.capacity
      → (q : Ring A) × (try_push r y ≡ some (pushed, q))
        × Dead q (ys ++ y ∷ [])
        × (q.capacity ≡ r.capacity)
        × (q.producer_pos ≡ suc r.producer_pos)
  unfolding try_push try_push_with claim_push
  stuck_push-room {ys} y v small room = (
    (claim_push r (free_cell p) (some y) p).1,
    do_push-claims r 1 (some y) (omega arith) head,
    record {
      shape = put_cell-Shape v.shape p (add_size p 1) c new;
      counted = omega (arith, v.counted, length-append ys (y ∷ []));
      fits = omega (arith, length-append ys (y ∷ []));
      cells =
          subst (λ b. Window b cap c (free_cell c ∷ layout (suc c) (ys ++ y ∷ []) left))
            (sym (put_cell-mod v.shape p new)) (subst (Window written cap c) same write);
    },
    refl,
    omega arith,
  )
    where
      p : ℕ
      p = r.producer_pos

      c : ℕ
      c = r.consumer_pos

      cap : ℕ
      cap = r.capacity

      new : Cell A
      new = record { seq = add_size p 1; storage = some y }

      written : List (Cell A)
      written = set r.buffer (p % cap) new

      left : ℕ
      left = cap - 1 - length (ys ++ y ∷ [])

      more : cap - 1 - length ys ≡ suc left
      more = omega (arith, length-append ys (y ∷ []))

      before : List (Cell A)
      before = free_cell c ∷ layout (suc c) ys (cap - 1 - length ys)

      all_cells : length before ≡ cap
      all_cells = omega (arith, length-layout (suc c) ys (cap - 1 - length ys))

      place : p ≡ c + suc (length ys)
      place = omega (arith, v.counted)

      head : cell_at r p ≡ some (free_cell p)
      head =
          cell_at-mod v.shape p
          ∙ ap (λ t. get_elem? r.buffer (t % cap)) {x = p}
              {y = c + length (free_cell c ∷ filled (suc c) ys)}
              (omega (arith, v.counted, length-filled (suc c) ys))
          ∙ Window-lookup r.buffer cap c (free_cell c ∷ filled (suc c) ys)
              (free_cell (suc c + length ys)) (free (suc (suc c + length ys)) left)
              (subst (λ n. Window r.buffer cap c (free_cell c ∷ layout (suc c) ys n)) more v.cells)
          ∙ ap (λ t. some (free_cell t)) {x = suc c + length ys} {y = p} (omega (arith, v.counted))

      write : Window written cap c (set before (suc (length ys)) new)
      write =
          Window-set r.buffer cap p c (suc (length ys)) new before place v.sized
            (omega (arith, all_cells)) (omega (arith, all_cells)) v.cells

      same :
          ◌≡◌ {A = List (Cell A)}
            (set before (suc (length ys)) new)
            (free_cell c ∷ layout (suc c) (ys ++ y ∷ []) left)
      same = ap (◌∷◌ (free_cell c)) (
          ap (λ n. set (layout (suc c) ys n) (length ys) new) more
          ∙ ap
              (λ s.
                set (layout (suc c) ys (suc left)) (length ys)
                  (record { seq = s; storage = some y }))
              {x = add_size p 1} {y = suc (suc c + length ys)} (omega (arith, v.counted))
          ∙ set-layout (suc c) ys y left)

  -- One round later the dead cell comes up again: the ring counts as full.
  stuck_push-full :
      {ys : List A} (y : A)
      → Dead r ys
      → InRange r
      → suc (length ys) ≡ r.capacity
      → try_push r y ≡ some (full, r)
  unfolding try_push try_push_with
  stuck_push-full {ys} y v small e =
      do_push-refuses r 1 (some y) (omega arith) (free_cell r.consumer_pos)
        (cell_at-mod v.shape r.producer_pos
          ∙ ap (get_elem? r.buffer) (
              ap (λ (t : ℕ). t % r.capacity) {x = r.producer_pos} {y = r.consumer_pos + r.capacity}
                (omega (arith, v.counted))
              ∙ add-mod_right r.consumer_pos r.capacity)
          ∙ v.cells.0)
        (omega (arith, v.counted))

-- How a ring behaves whose next ticket is dead: it takes elements while there is room, `room` of
-- them, and gives none back.
pub dead_replies {ℓ} : {A : Type ℓ} → ℕ → List (Op A) → List (Reply A)
dead_replies room [] = []
dead_replies room (pop_op ∷ ops) = pop_reply none ∷ dead_replies room ops
dead_replies zero (push_op x ∷ ops) = push_reply full ∷ dead_replies zero ops
dead_replies (suc room) (push_op x ∷ ops) = push_reply pushed ∷ dead_replies room ops

module _ {ℓ} {A : Type ℓ} where
  stuck_run :
      (room : ℕ) (ops : List (Op A)) {r : Ring A} (ys : List A)
      → Dead r ys
      → suc (length ys) + room ≡ r.capacity
      → r.producer_pos + length ops + r.capacity < 2 ^ 63
      → (q : Ring A) × (run r ops ≡ some (dead_replies room ops, q))
  unfolding run dead_replies
  stuck_run room [] {r} ys v e small = (r, refl)
  stuck_run room (pop_op ∷ ops) {r} ys v e small =
      let (q, h) = stuck_run room ops ys v e (omega arith) in
      (q, ground (arith, stuck_pop v (omega arith), h))
  stuck_run zero (push_op y ∷ ops) {r} ys v e small =
      let (q, h) = stuck_run zero ops ys v e (omega arith) in
      (q, ground (arith, stuck_push-full y v (omega arith) (omega arith), h))
  stuck_run (suc room) (push_op y ∷ ops) {r} ys v e small =
      let (q, h, v', c, p) = stuck_push-room y v (omega arith) (omega arith) in
      let (q', h') =
        stuck_run room ops (ys ++ y ∷ []) v' (omega (arith, c, length-append ys (y ∷ [])))
          (omega (arith, c, p)) in
      (q', ground (arith, h, h'))

  -- If the constructor of an element throws in a push on an empty ring, no element ever comes out
  -- of the ring again: of the pushes that follow, `capacity - 1` report success and all others
  -- fail, and every pop fails, as long as the positions stay below 2^63.
  pub throw_blocks :
      (ops : List (Op A)) {r : Ring A}
      → Repr r []
      → suc r.producer_pos + length ops + r.capacity < 2 ^ 63
      → (q : Ring A) × (last : Ring A) × (try_push_with r none ≡ some (threw, q))
        × (run q ops ≡ some (dead_replies (r.capacity - 1) ops, last))
  throw_blocks ops {r} v small =
      let (q, h, d, c, p) = throw-Dead v (omega arith) in
      let (last, h') =
        stuck_run (r.capacity - 1) ops [] d (omega (arith, c, v.large)) (omega (arith, c, p)) in
      (q, last, h, h')
