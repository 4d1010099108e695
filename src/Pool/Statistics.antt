-- ===== src/Pool/Statistics.antt =====
-- `GetStatistics` and `ResetStatistics` of src/thread_pool.cpp. The quotient of two counts as a `double`
-- is a parameter.
use cpp_mpmc_thread_pool.Base.{ℕ, ◌/◌, ◌==◌, if◌then◌else◌}
use cpp_mpmc_thread_pool.Adapter
use cpp_mpmc_thread_pool.Pool.{Pool}
use cpp_mpmc_thread_pool.Pool.Access.{pending, discarded_tasks, overwritten_tasks, paused_wait}
use cpp_mpmc_thread_pool.Worker.{Crew}

pub record Statistics (Double : Type 0) : Type 0 where
  pub total_submitted : ℕ
  pub total_completed : ℕ
  pub total_failed : ℕ
  pub total_cancelled : ℕ
  pub total_rejected : ℕ
  pub total_exec_time : ℕ
  pub avg_exec_time : ℕ
  pub pending_tasks : ℕ
  pub busy_ratio : Double
  pub pending_ratio : Double
  pub current_threads : ℕ
  pub active_threads : ℕ
  pub peak_threads : ℕ
  pub total_threads_created : ℕ
  pub total_threads_destroyed : ℕ
  pub discard_cnt : ℕ
  pub overwrite_cnt : ℕ
  pub paused_wait_cnt : ℕ

-- `busy_ratio_` and `pending_ratio_`, which the load balancer stores.
pub record Ratios (Double : Type 0) : Type 0 where
  pub busy_ratio : Double
  pub pending_ratio : Double

module _ {Double : Type 0} (nought : Double) (quotient : ℕ → ℕ → Double) where
  -- The counters of tasks are those of the pool, the counters of threads those of the crew.
  unfoldable pub get_statistics : Pool → Crew → Ratios Double → Statistics Double
  unfolding pending
  get_statistics p c r = record {
    total_submitted = p.total_submitted;
    total_completed = p.total_completed;
    total_failed = p.total_failed;
    total_cancelled = p.total_cancelled;
    total_rejected = p.total_rejected;
    total_exec_time = p.total_exec_time_ns;
    avg_exec_time = if p.total_completed == 0 then 0 else p.total_exec_time_ns / p.total_completed;
    pending_tasks = pending p;
    busy_ratio = r.busy_ratio;
    pending_ratio =
        if Adapter.capacity p.queue == 0
        then nought
        else quotient (pending p) (Adapter.capacity p.queue);
    current_threads = c.current_threads;
    active_threads = c.active_threads;
    peak_threads = c.peak_threads;
    total_threads_created = c.total_threads_created;
    total_threads_destroyed = c.total_threads_destroyed;
    discard_cnt = discarded_tasks p;
    overwrite_cnt = overwritten_tasks p;
    paused_wait_cnt = paused_wait p;
  }

  unfoldable pub reset_statistics : Pool → Crew → Pool × Crew × Ratios Double
  reset_statistics p c = (
    record p {
      total_submitted = 0;
      total_completed = 0;
      total_failed = 0;
      total_cancelled = 0;
      total_rejected = 0;
      total_exec_time_ns = 0;
      discard_cnt = 0;
      overwrite_cnt = 0;
      paused_wait_cnt = 0;
    },
    record c {
      peak_threads = c.current_threads;
      total_threads_created = 0;
      total_threads_destroyed = 0;
      paused_wait_cnt = 0;
    },
    record { busy_ratio = nought; pending_ratio = nought },
  )
