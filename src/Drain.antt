-- ===== src/Drain.antt =====
-- src/thread_pool.cpp: the wait of a graceful `Stop` for the tasks to drain, against the workers that
-- notify it, one access to shared memory at a time. Tasks are only
-- counted, none is an exit task, and no worker leaves.
pub mod Tidy
pub mod Woken
pub mod Missed
mod Tests
use cpp_mpmc_thread_pool.Base.{
  ℕ, zero, suc, ◌+◌, Bool, true, false, Option, none, some, List, [], ◌∷◌, ◌==◌, get_elem?, set,
  if◌then◌else◌,
}
use cpp_mpmc_thread_pool.Base.Words.{add_size, sub_size}

-- A worker: in `WaitPop` without a task; with a task that is still counted as pending, behind the
-- count of `WaitPop`, between `TaskOn` and `TaskOff`, behind `TaskOff`, behind the test of the active
-- tasks, and before it takes `drain_mtx_`.
pub data Place : Type 0 where
  out took fetched busy off seen last : Place

-- `Stop`: not there yet, with `drain_mtx_` before the test of the pending tasks, before that of the
-- active ones, in the wait, and behind it.
pub data Stopper : Type 0 where
  away checking half asleep through : Stopper

-- `tasks` are those in the ring, `uncounted` the pushes whose `fetch_add` is still to come.
pub record Drain : Type 0 where
  pub tasks : ℕ
  pub uncounted : ℕ
  pub pending_count : ℕ
  pub active_tasks : ℕ
  pub workers : List Place
  pub stopper : Stopper

pub data Event : Type 0 where
  push_event count_event stop_event spurious_event : Event
  worker_event : (k : ℕ) → Event

-- `notify_all` on `drain_cv_`.
abbrev pub wake_stop : Stopper → Stopper
wake_stop asleep = checking
wake_stop s = s

-- The pop of a ring with so many tasks.
unfoldable pub pop_task : Drain → ℕ → Drain × Place
pop_task d zero = (d, out)
pop_task d (suc n) = (record d { tasks = n }, took)

-- The notification, which needs `drain_mtx_`.
unfoldable pub notify_drained : Drain → Stopper → Drain × Place
notify_drained d checking = (d, last)
notify_drained d half = (d, last)
notify_drained d asleep = (record d { stopper = wake_stop asleep }, out)
notify_drained d s = (d, out)

-- The worker's step, with what it leaves. `drain_mtx_` is held by a `Stop` that tests.
unfoldable pub advance : Drain → Place → Drain × Place
advance d out = pop_task d d.tasks
advance d took = (record d { pending_count = sub_size d.pending_count 1 }, fetched)
advance d fetched = (record d { active_tasks = add_size d.active_tasks 1 }, busy)
advance d busy = (record d { active_tasks = sub_size d.active_tasks 1 }, off)
advance d off = if d.active_tasks == 0 then (d, seen) else (d, out)
advance d seen = if d.pending_count == 0 then (d, last) else (d, out)
advance d last = notify_drained d d.stopper

-- The predicate of the wait, one load at a time.
unfoldable pub drained_yet : Drain → Stopper → Stopper
drained_yet d away = checking
drained_yet d checking = if d.pending_count == 0 then half else asleep
drained_yet d half = if d.active_tasks == 0 then through else asleep
drained_yet d s = s

abbrev pub place_at : ℕ → Drain × Place → Drain
place_at k (d, p) = record d { workers = set d.workers k p }

unfoldable pub step : Drain → Event → Drain
unfolding advance drained_yet
step d push_event = record d { tasks = suc d.tasks; uncounted = suc d.uncounted }
step d count_event = elim d.uncounted [
  | zero ↦ d
  | suc n ↦ record d { uncounted = n; pending_count = add_size d.pending_count 1 }
]
step d stop_event = record d { stopper = drained_yet d d.stopper }
step d spurious_event = record d { stopper = wake_stop d.stopper }
step d (worker_event k) = elim (get_elem? d.workers k) [
  | none ↦ d
  | some p ↦ place_at k (advance d p)
]

unfoldable pub steps : Drain → List Event → Drain
unfolding step
steps d [] = d
steps d (e ∷ es) = steps (step d e) es
