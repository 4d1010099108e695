-- ===== src/Worker/Changed.antt =====
-- What one step of a worker of src/thread_pool.cpp counts.
use cpp_mpmc_thread_pool.Base.{suc, ◌+◌, ◌^◌, ◌≤◌, ◌<◌, ◌≡◌, refl, ap, inl, inr, true, false, arith}
use cpp_mpmc_thread_pool.Base.Words.{add_size, sub_size}
use cpp_mpmc_thread_pool.Pool.{
  PoolState, created, running, paused, shutting_down, force_stopping, stopped,
}
use cpp_mpmc_thread_pool.Worker.{
  Stage, looking, pausing, popping, executing, gone, Worker, Crew, Popped, missed, null_task,
  own_exit, other_exit, real_task, task_on, task_off, leave, look_around, wake_up, handle, act,
  back,
}
use cpp_mpmc_thread_pool.Worker.Sums.{alive, busy, Marked}

-- What a step of a worker changes.
pub record Changed (c d : Crew) (w v : Worker) : Type 0 where
  pub same_workers : d.workers ≡ c.workers
  pub same_made : d.total_threads_created ≡ c.total_threads_created
  pub current : d.current_threads + alive w.stage ≡ c.current_threads + alive v.stage
  pub active : d.active_threads + busy w.stage ≡ c.active_threads + busy v.stage
  pub tasks : d.active_tasks + busy w.stage ≡ c.active_tasks + busy v.stage
  pub ended : d.total_threads_destroyed + alive v.stage ≡ c.total_threads_destroyed + alive w.stage
  pub marked : Marked v

module _ (c : Crew) (w : Worker) (m : Marked w)
    (room : c.total_threads_destroyed + c.current_threads < 2 ^ 64)
    (live : c.current_threads < 2 ^ 64) (active : suc c.active_threads < 2 ^ 64)
    (tasks : suc c.active_tasks < 2 ^ 64) (live_here : alive w.stage ≤ c.current_threads)
    (busy_here : busy w.stage ≤ c.active_threads) (task_here : busy w.stage ≤ c.active_tasks) where
  task_off_idle : (u : Worker) → u.normal_end ≡ false → task_off c u ≡ (c, u)
  unfolding task_off
  task_off_idle u e = rw e refl

  leave-Changed :
      (u : Worker)
      → u.normal_end ≡ false
      → busy w.stage ≡ 0
      → alive w.stage ≡ 1
      → Changed c (leave c u).0 w (leave c u).1
  unfolding leave
  leave-Changed u off rests here =
      let e = task_off_idle u off in
      rw e (record {
        same_workers = refl;
        same_made = refl;
        current = omega arith;
        active = omega arith;
        tasks = omega arith;
        ended = omega arith;
        marked = inl (off, refl);
      })

  -- The worker goes on to another stage, and nothing is counted.
  stay-Changed :
      (d : Crew) (v : Worker)
      → d.workers ≡ c.workers
      → d.current_threads ≡ c.current_threads
      → d.active_threads ≡ c.active_threads
      → d.active_tasks ≡ c.active_tasks
      → d.total_threads_created ≡ c.total_threads_created
      → d.total_threads_destroyed ≡ c.total_threads_destroyed
      → alive w.stage ≡ alive v.stage
      → busy w.stage ≡ busy v.stage
      → Marked v
      → Changed c d w v
  stay-Changed d v a b e f g h i j k = record {
    same_workers = a;
    same_made = g;
    current = omega arith;
    active = omega arith;
    tasks = omega arith;
    ended = omega arith;
    marked = k;
  }

  at_rest : busy w.stage ≡ 0 → w.normal_end ≡ false
  at_rest h = elim m [
    | inl (off, rests) ↦ off
    | inr (on, at, idle, nums) ↦ absurd (omega (arith, h, ap busy at))
  ]

  -- Stages in which a worker counts as a thread, and not as an active one.
  module _ (rests : busy w.stage ≡ 0) (here : alive w.stage ≡ 1) where
    back-Changed : Changed c c w (back w)
    back-Changed =
        stay-Changed c (back w) refl refl refl refl refl refl here rests (inl (at_rest rests, refl))

    look_around-Changed : (s : PoolState) → Changed c (look_around c w s).0 w (look_around c w s).1
    unfolding look_around
    look_around-Changed paused =
        stay-Changed _ _ refl refl refl refl refl refl here rests (inl (at_rest rests, refl))
    look_around-Changed force_stopping = leave-Changed w (at_rest rests) rests here
    look_around-Changed created =
        stay-Changed _ _ refl refl refl refl refl refl here rests (inl (at_rest rests, refl))
    look_around-Changed running =
        stay-Changed _ _ refl refl refl refl refl refl here rests (inl (at_rest rests, refl))
    look_around-Changed shutting_down =
        stay-Changed _ _ refl refl refl refl refl refl here rests (inl (at_rest rests, refl))
    look_around-Changed stopped =
        stay-Changed _ _ refl refl refl refl refl refl here rests (inl (at_rest rests, refl))

    wake_up-Changed : (s : PoolState) → Changed c (wake_up c w s).0 w (wake_up c w s).1
    unfolding wake_up
    wake_up-Changed paused = stay-Changed _ _ refl refl refl refl refl refl refl refl m
    wake_up-Changed force_stopping = back-Changed
    wake_up-Changed created = back-Changed
    wake_up-Changed running = back-Changed
    wake_up-Changed shutting_down = back-Changed
    wake_up-Changed stopped = back-Changed

    handle-Changed : (p : Popped) → Changed c (handle c w p).0 w (handle c w p).1
    unfolding handle task_on
    handle-Changed (missed true) = leave-Changed w (at_rest rests) rests here
    handle-Changed (missed false) = back-Changed
    handle-Changed null_task = back-Changed
    handle-Changed own_exit =
        leave-Changed (record w { should_exit = false }) (at_rest rests) rests here
    handle-Changed (other_exit true) = back-Changed
    handle-Changed (other_exit false) = leave-Changed w (at_rest rests) rests here
    handle-Changed real_task = record {
      same_workers = refl;
      same_made = refl;
      current = omega arith;
      active = omega arith;
      tasks = omega arith;
      ended = omega arith;
      marked = inr (refl, refl, refl, refl);
    }

  task_off_busy :
      w.normal_end ≡ true
      → task_off c w ≡ (
        record c {
          active_threads = sub_size c.active_threads 1;
          active_tasks = sub_size c.active_tasks 1;
        },
        record w { idle = true; idle_nums = add_size w.idle_nums 1; normal_end = false },
      )
  unfolding task_off
  task_off_busy e = rw e refl

  pub act-Changed :
      (q : Stage) (p : Popped) → w.stage ≡ q → Changed c (act c w q p).0 w (act c w q p).1
  unfolding act
  act-Changed looking p e = look_around-Changed (ap busy e) (ap alive e) c.state
  act-Changed pausing p e = wake_up-Changed (ap busy e) (ap alive e) c.state
  act-Changed popping p e = handle-Changed (ap busy e) (ap alive e) p
  act-Changed gone p e = stay-Changed c w refl refl refl refl refl refl refl refl m
  act-Changed executing p e = elim m [
    | inl (off, rests) ↦ absurd (omega (arith, rests, ap busy e))
    | inr (on, at, idle, nums) ↦
        let h = task_off_busy on in
        rw h (record {
          same_workers = refl;
          same_made = refl;
          current = omega (arith, ap alive e);
          active = omega (arith, ap busy e);
          tasks = omega (arith, ap busy e);
          ended = omega (arith, ap alive e);
          marked = inl (refl, refl);
        })
  ]
