-- ===== src/Submit/Tests.antt =====
-- A call that waits while the pool is paused, and then overwrites the oldest task.
use cpp_mpmc_thread_pool.Base.{ℕ, ◌≡◌, refl, false, [], ◌∷◌}
use cpp_mpmc_thread_pool.Ring
use cpp_mpmc_thread_pool.Adapter.{make}
use cpp_mpmc_thread_pool.Pool.{paused, shutting_down, force_stopping}
use cpp_mpmc_thread_pool.Submit.{Desk, enter, cancelled, rejected, pass_gate}
use cpp_mpmc_thread_pool.Submit.Placed.{Placed}

abbrev desk : Desk ℕ
desk = record {
  queue = make 2;
  submit_ing = 0;
  drained = 0;
  total_submitted = 0;
  total_rejected = 0;
  total_cancelled = 0;
  discard_cnt = 0;
  overwrite_cnt = 0;
  paused_wait_cnt = 0;
}

waited_in : pass_gate false paused (shutting_down ∷ []) ≡ (enter, 1)
unfolding pass_gate
waited_in = refl

forced_out : pass_gate false paused (force_stopping ∷ []) ≡ (cancelled, 1)
unfolding pass_gate
forced_out = refl

late : pass_gate false shutting_down [] ≡ (rejected, 0)
unfolding pass_gate
late = refl
