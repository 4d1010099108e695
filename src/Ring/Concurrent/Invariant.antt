-- ===== src/Ring/Concurrent/Invariant.antt =====
-- What holds between two steps of the threads on a ring.
use cpp_mpmc_thread_pool.Base.{
  ℕ, suc, ◌+◌, ◌%◌, ◌≤◌, ◌<◌, ◌≡◌, ◌⊎◌, Option, none, some, List, [], ◌∷◌, length, get_elem?, ◌==◌,
  if◌then◌else◌,
}
use cpp_mpmc_thread_pool.Ring.{Cell, Ring}
use cpp_mpmc_thread_pool.Ring.Repr.{full_cell, free_cell, Shape}
use cpp_mpmc_thread_pool.Ring.Concurrent.{
  Pc, idle, push_load, push_claim, push_build, push_publish, pop_load, pop_claim, pop_move,
  pop_release,
}

module _ {A : Type 0} where
  -- The cell of ticket `t`.
  abbrev pub look : Ring A → ℕ → Option (Cell A)
  look r t = get_elem? r.buffer (t % r.capacity)

  -- The cell holds the element of its ticket, for a consumer.
  abbrev pub Full : Ring A → List A → ℕ → Type 0
  Full r xs t = (x : A) × (get_elem? xs t ≡ some x) × (look r t ≡ some (full_cell t x))

  -- The ticket in the window of the ring whose cell is a thread's own. A consumer with the ticket `at`
  -- works on the cell that will be that of the ticket one round later.
  abbrev pub slot : ℕ → Pc A → Option ℕ
  slot cap (push_build x at) = some at
  slot cap (push_publish x at) = some at
  slot cap (pop_move at) = some (at + cap)
  slot cap (pop_release at x) = some (at + cap)
  slot cap _ = none

  -- The ticket of a consumer that has not returned.
  abbrev pub consuming : Pc A → Option ℕ
  consuming (pop_move at) = some at
  consuming (pop_release at x) = some at
  consuming _ = none

  -- What the locals of a thread say about the ring and the elements that were claimed.
  abbrev pub Fine : Ring A → List A → Pc A → Type 0
  Fine r xs idle = Unit
  Fine r xs (push_load x at) = at ≤ r.producer_pos
  Fine r xs (push_claim x at seq) =
      (at ≤ r.producer_pos)
      × (seq ≤ r.producer_pos + r.capacity)
      × (seq ≡ at
          → at ≡ r.producer_pos
          → (r.producer_pos < r.consumer_pos + r.capacity)
            × (look r r.producer_pos ≡ some (free_cell r.producer_pos)))
  Fine r xs (push_build x at) =
      (r.consumer_pos ≤ at)
      × (at < r.producer_pos)
      × (get_elem? xs at ≡ some x)
      × (look r at ≡ some (free_cell at))
  Fine r xs (push_publish x at) =
      (r.consumer_pos ≤ at)
      × (at < r.producer_pos)
      × (get_elem? xs at ≡ some x)
      × (look r at ≡ some (record { seq = at; storage = some x }))
  Fine r xs (pop_load at) = at ≤ r.consumer_pos
  Fine r xs (pop_claim at seq) =
      (at ≤ r.consumer_pos)
      × (seq ≤ r.producer_pos + r.capacity)
      × (seq ≡ suc at
          → at ≡ r.consumer_pos
          → (r.consumer_pos < r.producer_pos) × Full r xs r.consumer_pos)
  Fine r xs (pop_move at) =
      (at < r.consumer_pos) × (r.producer_pos ≤ at + r.capacity) × Full r xs at
  Fine r xs (pop_release at x) =
      (at < r.consumer_pos)
      × (r.producer_pos ≤ at + r.capacity)
      × (get_elem? xs at ≡ some x)
      × (look r at ≡ some (record { seq = suc at; storage = none }))

  -- A cell of the window that no thread works on.
  abbrev pub Resting : Ring A → List A → ℕ → Type 0
  Resting r xs t =
      ((t < r.producer_pos) × Full r xs t)
      ⊎ ((r.producer_pos ≤ t) × (look r t ≡ some (free_cell t)))

  -- Some thread works on the cell.
  abbrev pub Held : ℕ → (ℕ → Pc A) → ℕ → Type 0
  Held cap pc t = (i : ℕ) × (slot cap (pc i) ≡ some t)

  -- How often a ticket was returned.
  abbrev pub times : ℕ → List (ℕ × A) → ℕ
  times t [] = 0
  times t ((u, x) ∷ rs) = let n = times t rs in if t == u then suc n else n

  -- The pairs of a ticket and the element that was claimed for it.
  abbrev pub AllClaimed : List A → List (ℕ × A) → Type 0
  AllClaimed xs [] = Unit
  AllClaimed xs ((t, x) ∷ rs) = (get_elem? xs t ≡ some x) × AllClaimed xs rs

-- The cells and the threads.
pub record Inv {A : Type 0} (r : Ring A) (pc : ℕ → Pc A) (xs : List A) : Type 0 where
  pub shape : Shape r
  pub behind : r.consumer_pos ≤ r.producer_pos
  pub ahead : r.producer_pos ≤ r.consumer_pos + r.capacity
  pub logged : length xs ≡ r.producer_pos
  pub bounded :
      (k : ℕ) (c : Cell A) → get_elem? r.buffer k ≡ some c → c.seq ≤ r.producer_pos + r.capacity
  pub fine : (i : ℕ) → Fine r xs (pc i)
  pub alone :
      (i j w : ℕ) → slot r.capacity (pc i) ≡ some w → slot r.capacity (pc j) ≡ some w → i ≡ j
  pub cells :
      (t : ℕ)
      → r.consumer_pos ≤ t
      → t < r.consumer_pos + r.capacity
      → Held r.capacity pc t ⊎ Resting r xs t

-- The calls that have returned, below the position `c` of the consumers.
pub record Returned {A : Type 0} (c : ℕ) (pc : ℕ → Pc A) (xs : List A) (rs : List (ℕ × A))
    : Type 0 where
  pub elements : AllClaimed xs rs
  pub later : (t : ℕ) → c ≤ t → times t rs ≡ 0
  pub pending : (i t : ℕ) → consuming (pc i) ≡ some t → times t rs ≡ 0
  pub earlier : (t : ℕ) → t < c → ((i : ℕ) × (consuming (pc i) ≡ some t)) ⊎ (times t rs ≡ 1)
