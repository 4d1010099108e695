-- ===== src/Balancer.antt =====
-- src/thread_pool.cpp: the load balancer. A round of its loop is a function of what it samples. The two
-- tests of the busy ratio, which is a `double`, are parameters. A worker that is told to exit has left
-- when the round is over, since the balancer joins its thread.
pub mod Bounds
pub mod Pace
mod Tests
use cpp_mpmc_thread_pool.Base.{
  ℕ, zero, suc, ◌+◌, Bool, true, false, ◌&&◌, ◌||◌, List, [], ◌∷◌, ◌++◌, ltb, leb, ◌==◌,
  if◌then◌else◌, max,
}
use cpp_mpmc_thread_pool.Base.Words.{add_size, sub_size}

-- `WorkerSlot`; a number in place of its address.
pub record WorkerSlot : Type 0 where
  pub number : ℕ
  pub should_exit : Bool
  pub idle : Bool

-- The members that the loop reads. `busy` and `calm` compare the busy ratio of some active and current
-- threads with the two thresholds.
pub record Limits : Type 0 where
  pub core_threads : ℕ
  pub max_threads : ℕ
  pub pending_hi : ℕ
  pub pending_low : ℕ
  pub debounce_hits : ℕ
  pub cooldown : ℕ
  pub busy : (active current : ℕ) → Bool
  pub calm : (active current : ℕ) → Bool

-- What a round finds: whether it was kicked, the time, the pending tasks and the active threads.
pub record Sample : Type 0 where
  pub kicked : Bool
  pub now : ℕ
  pub pending : ℕ
  pub active : ℕ

-- The locals of the loop, the workers and their counters. `next` is the number of a new slot.
pub record Balancer : Type 0 where
  pub up_hits : ℕ
  pub down_hits : ℕ
  pub last_adjust : ℕ
  pub workers : List WorkerSlot
  pub next : ℕ
  pub current_threads : ℕ
  pub peak_threads : ℕ
  pub total_threads_created : ℕ
  pub total_threads_destroyed : ℕ

-- `CreateWorkerUnlocked`: the slot as `WorkerCounterHelper` leaves it.
abbrev pub create_worker : Balancer → Balancer
create_worker b = record b {
  workers = b.workers ++ record { number = b.next; should_exit = false; idle = true } ∷ [];
  next = suc b.next;
  current_threads = add_size b.current_threads 1;
  total_threads_created = add_size b.total_threads_created 1;
  peak_threads = max b.peak_threads (add_size b.current_threads 1);
}

-- `ScheduleShrinkUnlocked`: at most `count` idle workers are marked and returned.
unfoldable pub schedule_shrink : (count : ℕ) → List WorkerSlot → List WorkerSlot × List ℕ
schedule_shrink zero slots = (slots, [])
schedule_shrink (suc n) [] = ([], [])
schedule_shrink (suc n) (s ∷ ss) =
    let (marked, targets) = schedule_shrink n ss in
    let (rest, others) = schedule_shrink (suc n) ss in
    if s.idle
    then (if s.should_exit
        then (s ∷ rest, others)
        else (record s { should_exit = true } ∷ marked, s.number ∷ targets))
    else (s ∷ rest, others)

unfoldable pub erase_slot : ℕ → List WorkerSlot → List WorkerSlot
erase_slot k [] = []
erase_slot k (s ∷ ss) = let rest = erase_slot k ss in if s.number == k then ss else s ∷ rest

-- `RetireWorkerUnlocked`, and the end of the worker's thread that it waits for.
abbrev pub retire_worker : Balancer → ℕ → Balancer
retire_worker b k = record b {
  workers = erase_slot k b.workers;
  current_threads = sub_size b.current_threads 1;
  total_threads_destroyed = add_size b.total_threads_destroyed 1;
}

unfoldable pub retire_workers : Balancer → List ℕ → Balancer
unfolding erase_slot
retire_workers b [] = b
retire_workers b (k ∷ ks) = retire_workers (retire_worker b k) ks

module _ (p : Limits) where
  abbrev pub to_grow : Sample → Balancer → Bool
  to_grow s b = leb p.pending_hi s.pending || p.busy s.active b.current_threads

  abbrev pub to_shrink : Sample → Balancer → Bool
  to_shrink s b = leb s.pending p.pending_low && p.calm s.active b.current_threads

  abbrev pub settled : Balancer → ℕ → Balancer
  settled b now = record b { up_hits = 0; down_hits = 0; last_adjust = now }

  unfoldable pub grow : Balancer → ℕ → Balancer
  grow b now =
      if leb p.debounce_hits (add_size b.up_hits 1)
      then (if ltb b.current_threads p.max_threads
          then create_worker (settled b now)
          else settled b now)
      else record b { up_hits = add_size b.up_hits 1 }

  unfoldable pub shrink_one : Balancer → Balancer
  unfolding schedule_shrink retire_workers
  shrink_one b =
      let (marked, targets) = schedule_shrink 1 b.workers in
      retire_workers (record b { workers = marked }) targets

  unfoldable pub shrink : Balancer → ℕ → Balancer
  unfolding shrink_one
  shrink b now =
      if leb p.debounce_hits (add_size b.down_hits 1)
      then (if ltb p.core_threads b.current_threads
          then shrink_one (settled b now)
          else settled b now)
      else record b { down_hits = add_size b.down_hits 1 }

  -- One round of `LoadBalancerLoop`.
  unfoldable pub round : Sample → Balancer → Balancer
  unfolding grow shrink
  round s b =
      if (if s.kicked then false else ltb s.now (b.last_adjust + p.cooldown))
      then b
      else if to_grow s b
      then grow b s.now
      else if to_shrink s b
      then shrink b s.now
      else record b { up_hits = 0; down_hits = 0 }

  unfoldable pub rounds : List Sample → Balancer → Balancer
  unfolding round
  rounds [] b = b
  rounds (s ∷ ss) b = rounds ss (round s b)
