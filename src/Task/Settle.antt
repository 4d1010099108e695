-- ===== src/Task/Settle.antt =====
-- Calls of `Execute` and `Cancel` on one `FutureTask` of include/thread_pool/fwd.hpp that overlap.
use cpp_mpmc_thread_pool.Base.{
  ℕ, suc, ◌+◌, Bool, true, false, ◌&&◌, ◌==◌, Option, some, List, [], ◌∷◌,
}
use cpp_mpmc_thread_pool.Task.{
  Exception, Outcome, value, exception, FutureTask, run_body, execute, cancel, cancel_reason,
}

-- A call on a task. `finish` is the rest of an `Execute` of another thread, whose test of `done_` was
-- made before; it comes whatever `done_` says by now.
pub data TaskCall {ℓ} (T : Type ℓ) : Type ℓ where
  executes finishes : Outcome T → TaskCall T
  cancels : Option Exception → TaskCall T

module _ {ℓ} {T : Type ℓ} where
  unfoldable pub call : FutureTask T → TaskCall T → FutureTask T
  unfolding run_body execute cancel
  call t (executes r) = execute t r
  call t (finishes r) = run_body t r
  call t (cancels e) = cancel t e

  unfoldable pub calls : FutureTask T → List (TaskCall T) → FutureTask T
  unfolding call
  calls t [] = t
  calls t (c ∷ cs) = calls (call t c) cs

  -- What a call puts in the future.
  abbrev pub settles : TaskCall T → Outcome T
  settles (executes r) = r
  settles (finishes r) = r
  settles (cancels e) = exception (cancel_reason e)

  -- Whether a call, made on a new task, is an execution that ends with a value.
  abbrev pub succeeds : TaskCall T → Bool
  succeeds (executes (value x)) = true
  succeeds (finishes (value x)) = true
  succeeds _ = false

  abbrev pub starts : TaskCall T → ℕ
  starts (executes r) = 1
  starts (finishes r) = 1
  starts (cancels e) = 0

  -- How many executions had passed the test of `done_` before the first call ended.
  abbrev pub late : List (TaskCall T) → ℕ
  late [] = 0
  late (finishes r ∷ cs) = suc (late cs)
  late (c ∷ cs) = late cs

  -- A task that a first call has decided, `n` runs and `k` late ones ago.
  abbrev pub decided : Outcome T → Bool → ℕ → ℕ → FutureTask T
  decided r good n k = record {
    promise = some r;
    ok = good && (k == 0);
    fut_taken = false;
    done = true;
    runs = n + k;
  }
