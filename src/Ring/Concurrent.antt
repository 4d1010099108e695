-- ===== src/Ring/Concurrent.antt =====
-- include/mpmc/bounded_circular_queue.hpp with any number of threads in `TryPush` and `TryPop` at
-- once. A step is one access to shared memory by one thread, and all threads see the accesses in one
-- order. `none` is a read out of bounds, an object constructed over a live one, or a move from a
-- cell with no object.
pub mod Invariant
pub mod Cells
pub mod Frame
pub mod Moves
pub mod Heads
pub mod Returns
pub mod Good
pub mod Producer
pub mod Consumer
pub mod Safety
pub mod Rank
pub mod Nearer
pub mod Alone
pub mod Quiet
mod Tests
use cpp_mpmc_thread_pool.Base.{
  ℕ, zero, suc, ◌+◌, Bool, true, false, not, ◌&&◌, Option, none, some, List, [], ◌∷◌, ◌++◌, ◌==◌,
  if◌then◌else◌,
}
use cpp_mpmc_thread_pool.Base.Words.{add_size, is_zero, is_negative, ptr_diff}
use cpp_mpmc_thread_pool.Ring.{Cell, Ring, cell_at, put_cell}

-- Where a thread stands, with its locals. `at` is `pos`.
pub data Pc {ℓ} (A : Type ℓ) : Type ℓ where
  idle : Pc A
  -- `DoPush`: before the load of `cell.seq_`, behind it, behind the claim, and behind `f(storage)`
  push_load : (x : A) (at : ℕ) → Pc A
  push_claim : (x : A) (at seq : ℕ) → Pc A
  push_build : (x : A) (at : ℕ) → Pc A
  push_publish : (x : A) (at : ℕ) → Pc A
  -- `TryPop`: the same, with the move out of the cell and the release
  pop_load : (at : ℕ) → Pc A
  pop_claim : (at seq : ℕ) → Pc A
  pop_move : (at : ℕ) → Pc A
  pop_release : (at : ℕ) (x : A) → Pc A

-- What the scheduler chooses: for an idle thread a call, for any other thread whether
-- `compare_exchange_weak` fails although the position is the expected one.
pub data Choice {ℓ} (A : Type ℓ) : Type ℓ where
  call_push : A → Choice A
  call_pop : Choice A
  go : (spurious : Bool) → Choice A

-- `claimed` lists the elements of the tickets that producers have got, the first ticket's first, and
-- `returned` the calls of `TryPop` that returned an element, with their tickets, the last one first.
pub record System {ℓ} (A : Type ℓ) : Type ℓ where
  pub ring : Ring A
  pub pc : ℕ → Pc A
  pub claimed : List A
  pub returned : List (ℕ × A)

module _ {ℓ} {A : Type ℓ} where
  abbrev pub start_of : Ring A → System A
  start_of r = record { ring = r; pc = λ i. idle; claimed = []; returned = [] }

  abbrev pub update : (ℕ → Pc A) → ℕ → Pc A → ℕ → Pc A
  update pc i p j = if j == i then p else pc j

  abbrev pub goto : System A → ℕ → Pc A → System A
  goto s i p = record s { pc = update s.pc i p }

  abbrev pub spurious : Choice A → Bool
  spurious (go b) = b
  spurious _ = false

  -- `compare_exchange_weak(pos, pos + 1)`, and what follows for each result.
  unfoldable pub push_exchange : System A → ℕ → A → ℕ → Bool → System A
  push_exchange s i x at fails =
      if (s.ring.producer_pos == at) && not fails
      then record s {
        ring = record s.ring { producer_pos = add_size at 1 };
        pc = update s.pc i (push_build x at);
        claimed = s.claimed ++ x ∷ [];
      }
      else goto s i (push_load x s.ring.producer_pos)

  unfoldable pub pop_exchange : System A → ℕ → ℕ → Bool → System A
  pop_exchange s i at fails =
      if (s.ring.consumer_pos == at) && not fails
      then record s {
        ring = record s.ring { consumer_pos = add_size at 1 };
        pc = update s.pc i (pop_move at);
      }
      else goto s i (pop_load s.ring.consumer_pos)

  -- A write to a cell.
  abbrev pub write : System A → ℕ → ℕ → Cell A → Pc A → System A
  write s i at c p = record s {
    ring = record s.ring { buffer = put_cell s.ring at c };
    pc = update s.pc i p;
  }

  -- The next access of thread `i`, which stands at `p`.
  unfoldable pub access : System A → ℕ → Pc A → Choice A → Option (System A)
  unfolding push_exchange pop_exchange ptr_diff
  access s i idle (call_push x) = some (goto s i (push_load x s.ring.producer_pos))
  access s i idle call_pop = some (goto s i (pop_load s.ring.consumer_pos))
  access s i idle (go b) = some s
  access s i (push_load x at) c = elim (cell_at s.ring at) [
    | none ↦ none
    | some cell ↦ some (goto s i (push_claim x at cell.seq))
  ]
  access s i (push_claim x at seq) c =
      let diff = ptr_diff seq at in
      some (
        if is_zero diff
        then push_exchange s i x at (spurious c)
        else if is_negative diff
        then goto s i idle
        else goto s i (push_load x s.ring.producer_pos))
  access s i (push_build x at) c = elim (cell_at s.ring at) [
    | none ↦ none
    | some cell ↦ elim cell.storage [
      | some old ↦ none
      | none ↦ some (write s i at (record cell { storage = some x }) (push_publish x at))
    ]
  ]
  access s i (push_publish x at) c = elim (cell_at s.ring at) [
    | none ↦ none
    | some cell ↦ some (write s i at (record cell { seq = add_size at 1 }) idle)
  ]
  access s i (pop_load at) c = elim (cell_at s.ring at) [
    | none ↦ none
    | some cell ↦ some (goto s i (pop_claim at cell.seq))
  ]
  access s i (pop_claim at seq) c =
      let diff = ptr_diff seq (add_size at 1) in
      some (
        if is_zero diff
        then pop_exchange s i at (spurious c)
        else if is_negative diff
        then goto s i idle
        else goto s i (pop_load s.ring.consumer_pos))
  access s i (pop_move at) c = elim (cell_at s.ring at) [
    | none ↦ none
    | some cell ↦ elim cell.storage [
      | none ↦ none
      | some x ↦ some (write s i at (record cell { storage = none }) (pop_release at x))
    ]
  ]
  access s i (pop_release at x) c = elim (cell_at s.ring at) [
    | none ↦ none
    | some cell ↦
        some (record (write s i at (record cell { seq = add_size at s.ring.capacity }) idle) {
          returned = (at, x) ∷ s.returned;
        })
  ]

  -- A schedule: which thread comes next, and its choice.
  unfoldable pub steps : System A → List (ℕ × Choice A) → Option (System A)
  unfolding access
  steps s [] = some s
  steps s ((i, c) ∷ es) = elim (access s i (s.pc i) c) [ none ↦ none | some t ↦ steps t es ]
