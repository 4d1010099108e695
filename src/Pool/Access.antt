-- ===== src/Pool/Access.antt =====
-- The functions of src/thread_pool.cpp that read one value of the pool, or set one.
use cpp_mpmc_thread_pool.Base.{ℕ, Bool, true, false}
use cpp_mpmc_thread_pool.Adapter
use cpp_mpmc_thread_pool.Pool.{Pool, PoolState, running, paused, QueueFullPolicy}

abbrev is_running_state : PoolState → Bool
is_running_state running = true
is_running_state _ = false

abbrev is_paused_state : PoolState → Bool
is_paused_state paused = true
is_paused_state _ = false

abbrev pub is_running : Pool → Bool
is_running p = is_running_state p.state

abbrev pub is_paused : Pool → Bool
is_paused p = is_paused_state p.state

unfoldable pub pending : Pool → ℕ
unfolding Adapter.size
pending p = Adapter.size p.queue

abbrev pub discarded_tasks : Pool → ℕ
discarded_tasks p = p.discard_cnt

abbrev pub overwritten_tasks : Pool → ℕ
overwritten_tasks p = p.overwrite_cnt

abbrev pub paused_wait : Pool → ℕ
paused_wait p = p.paused_wait_cnt

abbrev pub set_state : PoolState → Pool → Pool
set_state s p = record p { state = s }

abbrev pub set_queue_full_policy : QueueFullPolicy → Pool → Pool
set_queue_full_policy policy p = record p { policy = policy }
