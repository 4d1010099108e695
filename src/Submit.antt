-- ===== src/Submit.antt =====
-- include/thread_pool/thread_pool.hpp: `Submit`, and `SubmitOn` and `SubmitOff` of src/thread_pool.cpp. The
-- states that its loop loads are an argument, and so are the calls of other threads while it waits.
-- `none` is a fault of the queue.
pub mod Placed
pub mod Account
mod Tests
use cpp_mpmc_thread_pool.Base.{
  ℕ, zero, suc, ◌+◌, ◌-◌, Bool, true, false, Option, none, some, List, [], ◌∷◌, ◌==◌, if◌then◌else◌,
}
use cpp_mpmc_thread_pool.Base.Words.{add_size, sub_size}
use cpp_mpmc_thread_pool.Adapter.{Adapter, Call, try_push, overwrite_push}
use cpp_mpmc_thread_pool.Adapter.Wait.{Waited, returned, blocked, wait_push}
use cpp_mpmc_thread_pool.Pool.{
  PoolState, running, paused, shutting_down, force_stopping, QueueFullPolicy, block, discard,
  overwrite,
}

-- The members that `Submit` works on. `drained` counts the notifications of `submit_cv_`.
pub record Desk {ℓ} (A : Type ℓ) : Type ℓ where
  pub queue : Adapter A
  pub submit_ing : ℕ
  pub drained : ℕ
  pub total_submitted : ℕ
  pub total_rejected : ℕ
  pub total_cancelled : ℕ
  pub discard_cnt : ℕ
  pub overwrite_cnt : ℕ
  pub paused_wait_cnt : ℕ

-- The future of the task, a future with an exception, an exception, or a call that still waits.
pub data Reply : Type 0 where
  accepted broken thrown waiting : Reply

-- How the loop on the state ends.
pub data Gate : Type 0 where
  enter cancelled rejected held : Gate

-- The states that are loaded, one for each round. Without a further one the call is in its wait.
unfoldable pub pass_gate : Bool → PoolState → List PoolState → Gate × ℕ
pass_gate waited running later = (enter, 0)
pass_gate waited paused [] = (held, 1)
pass_gate waited paused (s ∷ later) = let (g, n) = pass_gate true s later in (g, suc n)
pass_gate true shutting_down later = (enter, 0)
pass_gate true force_stopping later = (cancelled, 0)
pass_gate waited s later = (rejected, 0)

module _ {ℓ} {A : Type ℓ} where
  abbrev pub submit_on : Desk A → Desk A
  submit_on d = record d { submit_ing = add_size d.submit_ing 1 }

  abbrev pub submit_off : Desk A → Desk A
  submit_off d = record d {
    submit_ing = sub_size d.submit_ing 1;
    drained = if d.submit_ing == 1 then suc d.drained else d.drained;
  }

  abbrev pub count_accepted : Desk A → Adapter A → Desk A
  count_accepted d q = record d { queue = q; total_submitted = add_size d.total_submitted 1 }

  abbrev pub count_rejected : Desk A → Adapter A → Desk A
  count_rejected d q = record d { queue = q; total_rejected = add_size d.total_rejected 1 }

  abbrev pub count_discarded : Desk A → Adapter A → Desk A
  count_discarded d q = record d {
    queue = q;
    total_rejected = add_size d.total_rejected 1;
    discard_cnt = add_size d.discard_cnt 1;
  }

  -- An overwritten task is cancelled.
  abbrev pub count_overwritten : Option A → Desk A → Desk A
  count_overwritten none d = d
  count_overwritten (some old) d = record d {
    total_cancelled = add_size d.total_cancelled 1;
    overwrite_cnt = add_size d.overwrite_cnt 1;
  }

  -- The switch on the policy.
  unfoldable pub enqueue :
      List (Call A) → List (List (Call A)) → Desk A → A → QueueFullPolicy → Option (Reply × Desk A)
  unfolding wait_push try_push overwrite_push
  enqueue locking rounds d t block = elim (wait_push locking rounds d.queue t) [
    | none ↦ none
    | some (returned true, q) ↦ some (accepted, count_accepted d q)
    | some (returned false, q) ↦ some (broken, count_rejected d q)
    | some (blocked, q) ↦ some (waiting, record d { queue = q })
  ]
  enqueue locking rounds d t discard = elim (try_push d.queue t) [
    | none ↦ none
    | some (true, q) ↦ some (accepted, count_accepted d q)
    | some (false, q) ↦ some (broken, count_discarded d q)
  ]
  enqueue locking rounds d t overwrite = elim (overwrite_push d.queue t) [
    | none ↦ none
    | some (true, old, q) ↦ some (accepted, count_accepted (count_overwritten old d) q)
    | some (false, old, q) ↦ some (broken, count_discarded (count_overwritten old d) q)
  ]

  -- What follows the loop on the state.
  unfoldable pub go_on :
      List (Call A)
      → List (List (Call A))
      → QueueFullPolicy
      → Desk A
      → A
      → Gate
      → Option (Reply × Desk A)
  unfolding enqueue
  go_on locking rounds policy d t enter = enqueue locking rounds d t policy
  go_on locking rounds policy d t cancelled =
      some (broken, record d { total_cancelled = add_size d.total_cancelled 1 })
  go_on locking rounds policy d t rejected =
      some (thrown, record d { total_rejected = add_size d.total_rejected 1 })
  go_on locking rounds policy d t held = some (waiting, d)

  -- The destructor of the helper runs where the call returns or throws.
  abbrev pub end_call : Reply × Desk A → Reply × Desk A
  end_call (waiting, d) = (waiting, d)
  end_call (r, d) = (r, submit_off d)

  unfoldable pub submit :
      PoolState
      → List PoolState
      → List (Call A)
      → List (List (Call A))
      → QueueFullPolicy
      → Desk A
      → A
      → Option (Reply × Desk A)
  unfolding pass_gate go_on
  submit s later locking rounds policy d t =
      let (gate, waits) = pass_gate false s later in
      let c = submit_on d in
      let inside = record c { paused_wait_cnt = add_size c.paused_wait_cnt waits } in
      elim (go_on locking rounds policy inside t gate) [ none ↦ none | some x ↦ some (end_call x) ]
