-- ===== src/Pool/Count.antt =====
-- Where a task can be that was offered to a pool of src/thread_pool.cpp.
use cpp_mpmc_thread_pool.Base.{
  ℕ, true, false, zero, suc, ◌+◌, ◌≤◌, ◌≡◌, refl, ap, ◌⊎◌, inl, inr, none, some, List, [], ◌∷◌,
  arith, length,
}
use cpp_mpmc_thread_pool.Adapter.{capacity}
use cpp_mpmc_thread_pool.Adapter.Spec.{View, Models}
use cpp_mpmc_thread_pool.Pool.{
  Item, Rest, counts, rejects, discards, displaced, overwriting, Pool, PoolState, created, running,
  paused, shutting_down, force_stopping, stopped, pick,
}
use cpp_mpmc_thread_pool.Pool.Schedule.{exit_event, exit_push_event, Event, post_event, batch_event}

-- The tasks of the threads that are inside `Post`.
abbrev pub waiting : Pool → ℕ
waiting p = length p.checking + length p.pausing + length p.dispatching + length p.pushing

abbrev pub weigh : (Rest → ℕ) → List Rest → ℕ
weigh f [] = 0
weigh f (r ∷ rs) = f r + weigh f rs

-- How many tasks a call that is returning was given and has not counted.
abbrev pub offered_of : Rest → ℕ
offered_of (counts n) = n
offered_of rejects = 1
offered_of discards = 1
offered_of (displaced success) = 1
offered_of (overwriting success) = 1

-- How many of them the queue has taken in.
abbrev pub landed_of : Rest → ℕ
landed_of (counts n) = n
landed_of rejects = 0
landed_of discards = 0
landed_of (displaced true) = 1
landed_of (displaced false) = 0
landed_of (overwriting true) = 1
landed_of (overwriting false) = 0

-- How many overwritten items it has still to count as cancelled.
abbrev pub replaced_of : Rest → ℕ
replaced_of (displaced success) = 1
replaced_of _ = 0

-- The tasks inside calls of `Post` and `PostBatch` that no counter shows yet, those of them that the
-- queue has taken in, and the overwritten items that are not counted yet.
abbrev pub inside : Pool → ℕ
inside p = waiting p + weigh offered_of p.returning

abbrev pub landed : Pool → ℕ
landed p = weigh landed_of p.returning

abbrev pub replaced : Pool → ℕ
replaced p = weigh replaced_of p.returning

-- What workers and calls of `WaitPush` for exit tasks have in hand.
abbrev pub in_hand : Pool → ℕ
in_hand p = length p.popped + length p.exiting + length p.starting + length p.ran

-- How many tasks the calls have offered, and how many exit tasks were made or tried to push.
abbrev pub offers : Event → ℕ
offers (post_event t) = 1
offers (batch_event ts) = length ts
offers e = 0

abbrev pub exit_signals : Event → ℕ
exit_signals (exit_event slot) = 1
exit_signals (exit_push_event k) = 1
exit_signals e = 0

abbrev pub all_offers : List Event → ℕ
all_offers [] = 0
all_offers (e ∷ es) = offers e + all_offers es

abbrev pub all_exit_signals : List Event → ℕ
all_exit_signals [] = 0
all_exit_signals (e ∷ es) = exit_signals e + all_exit_signals es

-- How far a pool is on its way from `CREATED` to `STOPPED`.
abbrev pub rank : PoolState → ℕ
rank created = 0
rank running = 1
rank paused = 1
rank shutting_down = 2
rank force_stopping = 3
rank stopped = 4

-- Each of the `n` tasks that were offered, and each exit task, is in one place or in one counter;
-- `hand` of them are in the step that is under way. Exit tasks have been made or tried `k` times. The
-- pool is at least as far as `low`.
pub record Counted (p : Pool) (low hand n k cap : ℕ) : Type 0 where
  pub view : View Item
  pub models : Models p.queue view
  pub same_capacity : capacity p.queue ≡ cap
  pub active : p.active_tasks ≡ length p.starting + length p.ran + p.ending
  pub ended : p.ending ≤ p.total_completed + p.total_failed
  pub accepted :
      p.total_submitted + landed p + p.exits_sent
      ≡ length view.items
        + in_hand p
        + p.total_completed
        + p.total_failed
        + p.total_cancelled
        + replaced p
        + p.exits_gone
  pub offered : n ≡ p.total_submitted + p.total_rejected + p.turned_away + inside p + hand
  pub sent : p.exits_sent ≤ k
  pub reached : low ≤ rank p.state
  pub tickets :
      p.queue.queue.producer_pos
      ≤ p.total_submitted + p.total_rejected + p.turned_away + weigh offered_of p.returning + k

-- A pick finds nothing, or takes one out.
pub pick-length {ℓ} :
    {A : Type ℓ} (k : ℕ) (xs : List A)
    → (pick k xs ≡ none)
      ⊎ ((x : A) × (ys : List A) × (pick k xs ≡ some (x, ys)) × (length xs ≡ suc (length ys)))
unfolding pick
pick-length k [] = inl refl
pick-length zero (x ∷ xs) = inr (x, xs, refl, refl)
pick-length (suc k) (x ∷ xs) = elim (pick-length k xs) [
  | inl e ↦ inl (ground (arith, e))
  | inr (y, ys, e, l) ↦ inr (y, x ∷ ys, ground (arith, e), ap suc l)
]

pub landed-offered : (r : Rest) → landed_of r ≤ offered_of r
landed-offered (counts n) = omega arith
landed-offered rejects = omega arith
landed-offered discards = omega arith
landed-offered (displaced true) = omega arith
landed-offered (displaced false) = omega arith
landed-offered (overwriting true) = omega arith
landed-offered (overwriting false) = omega arith

pub weigh_fewer : (rs : List Rest) → weigh landed_of rs ≤ weigh offered_of rs
weigh_fewer [] = omega arith
weigh_fewer (r ∷ rs) = omega (arith, landed-offered r, weigh_fewer rs)

-- A pick from `returning` finds nothing, or takes one out with its weights.
pub pick-weigh :
    (k : ℕ) (rs : List Rest)
    → (pick k rs ≡ none)
      ⊎ ((r : Rest) × (rest : List Rest) × (pick k rs ≡ some (r, rest))
          × (weigh offered_of rs ≡ offered_of r + weigh offered_of rest)
          × (weigh landed_of rs ≡ landed_of r + weigh landed_of rest)
          × (weigh replaced_of rs ≡ replaced_of r + weigh replaced_of rest))
unfolding pick
pick-weigh k [] = inl refl
pick-weigh zero (x ∷ xs) = inr (x, xs, refl, refl, refl, refl)
pick-weigh (suc k) (x ∷ xs) = elim (pick-weigh k xs) [
  | inl e ↦ inl (ground (arith, e))
  | inr (r, rest, e, a, b, c) ↦
      inr (r, x ∷ rest, ground (arith, e), omega (arith, a), omega (arith, b), omega (arith, c))
]
