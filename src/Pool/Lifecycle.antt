-- ===== src/Pool/Lifecycle.antt =====
-- The transitions of the state of a pool.
use cpp_mpmc_thread_pool.Base.{◌≤◌, arith}
use cpp_mpmc_thread_pool.Pool.{
  PoolState, created, running, paused, shutting_down, force_stopping, stopped, StopMode, graceful,
  force, start, pause, resume, stop_target,
}
use cpp_mpmc_thread_pool.Pool.Count.{rank}

-- No transition goes back.
pub start-rank : (s : PoolState) → rank s ≤ rank (start s)
unfolding start
start-rank created = omega arith
start-rank running = omega arith
start-rank paused = omega arith
start-rank shutting_down = omega arith
start-rank force_stopping = omega arith
start-rank stopped = omega arith

pub pause-rank : (s : PoolState) → rank s ≤ rank (pause s)
unfolding pause
pause-rank created = omega arith
pause-rank running = omega arith
pause-rank paused = omega arith
pause-rank shutting_down = omega arith
pause-rank force_stopping = omega arith
pause-rank stopped = omega arith

pub resume-rank : (s : PoolState) → rank s ≤ rank (resume s)
unfolding resume
resume-rank created = omega arith
resume-rank running = omega arith
resume-rank paused = omega arith
resume-rank shutting_down = omega arith
resume-rank force_stopping = omega arith
resume-rank stopped = omega arith

pub stop_target-rank : (mode : StopMode) (s : PoolState) → rank s ≤ rank (stop_target mode s)
unfolding stop_target
stop_target-rank graceful created = omega arith
stop_target-rank graceful running = omega arith
stop_target-rank graceful paused = omega arith
stop_target-rank graceful shutting_down = omega arith
stop_target-rank graceful force_stopping = omega arith
stop_target-rank graceful stopped = omega arith
stop_target-rank force created = omega arith
stop_target-rank force running = omega arith
stop_target-rank force paused = omega arith
stop_target-rank force shutting_down = omega arith
stop_target-rank force force_stopping = omega arith
stop_target-rank force stopped = omega arith

pub rank_top : (s : PoolState) → rank s ≤ rank stopped
rank_top created = omega arith
rank_top running = omega arith
rank_top paused = omega arith
rank_top shutting_down = omega arith
rank_top force_stopping = omega arith
rank_top stopped = omega arith
