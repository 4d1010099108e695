-- ===== src/Task/Tests.antt =====
-- Tasks on small inputs.
use cpp_mpmc_thread_pool.Base.{ℕ, List, [], ◌∷◌}
use cpp_mpmc_thread_pool.Task.{value}
use cpp_mpmc_thread_pool.Task.Settle.{TaskCall, executes, finishes}

-- A cancellation that overtakes the execution of the task decides what the future holds.
abbrev overtaken : List (TaskCall ℕ)
overtaken = finishes (value 5) ∷ executes (value 6) ∷ []
