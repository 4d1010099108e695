-- ===== src/Worker/Tally.antt =====
-- The counters of threads of src/thread_pool.cpp against what the workers do.
use mathlib.Core.Path.{subst}
use cpp_mpmc_thread_pool.Base.{
  ℕ, zero, suc, ◌+◌, ◌^◌, ◌≤◌, ◌<◌, ◌≡◌, refl, sym, ap, inl, inr, some, List, [], ◌∷◌, arith,
  length, get_elem?, set, Option-cases, length-set, length-append,
}
use cpp_mpmc_thread_pool.Worker.{
  Stage, Worker, Crew, new_worker, create_thread, act, put_worker, Event, create_event,
  worker_event, state_event, step,
}
use cpp_mpmc_thread_pool.Worker.Sums.{
  alive, busy, sum, AllMarked, sum-append, sum-set, sum_le, some_worker, AllMarked-lookup,
  AllMarked-set, AllMarked-append, alive_le, busy_le,
}
use cpp_mpmc_thread_pool.Worker.Changed.{Changed, act-Changed}

-- The counters are those of the workers.
pub record Tallied (c : Crew) : Type 0 where
  pub current : c.current_threads ≡ sum alive c.workers
  pub active : c.active_threads ≡ sum busy c.workers
  pub tasks : c.active_tasks ≡ sum busy c.workers
  pub made : c.total_threads_created ≡ length c.workers
  pub ended : c.total_threads_destroyed + c.current_threads ≡ length c.workers
  pub marked : AllMarked c.workers

put_worker-Tallied :
    (c d : Crew) (w v : Worker) (k : ℕ)
    → Tallied c
    → get_elem? c.workers k ≡ some w
    → Changed c d w v
    → Tallied (put_worker k (d, v)) × (length (set d.workers k v) ≤ suc (length c.workers))
put_worker-Tallied c d w v k t e h =
    let same : set d.workers k v ≡ set c.workers k v = ap (λ ws. set ws k v) h.same_workers in
    let n = length-set c.workers k v in
    (
      record {
        current =
            omega
              (arith, h.current, sum-set alive c.workers k w v e, t.current, ap (sum alive) same);
        active =
            omega (arith, h.active, sum-set busy c.workers k w v e, t.active, ap (sum busy) same);
        tasks = omega (arith, h.tasks, sum-set busy c.workers k w v e, t.tasks, ap (sum busy) same);
        made = omega (arith, h.same_made, t.made, n, ap length same);
        ended = omega (arith, h.ended, h.current, t.ended, n, ap length same);
        marked = subst AllMarked (sym same) (AllMarked-set c.workers k v t.marked h.marked);
      },
      omega (arith, n, ap length same),
    )

part_of :
    (f : Stage → ℕ) (ws : List Worker) (k : ℕ) (w : Worker)
    → get_elem? ws k ≡ some w
    → f w.stage ≤ sum f ws
part_of f [] k w e = absurd (cc)
part_of f (u ∷ ws) zero w e = omega (arith, ap (λ (v : Worker). f v.stage) (some_worker u w e))
part_of f (u ∷ ws) (suc k) w e = omega (arith, part_of f ws k w e)

create_thread-Tallied :
    (c : Crew) → Tallied c → suc (length c.workers) < 2 ^ 64 → Tallied (create_thread c)
create_thread-Tallied c t small =
    let n = length-append c.workers (new_worker ∷ []) in
    let live = sum-append alive c.workers (new_worker ∷ []) in
    let on = sum-append busy c.workers (new_worker ∷ []) in
    record {
      current = omega (arith, t.current, live, sum_le alive alive_le c.workers);
      active = omega (arith, t.active, on);
      tasks = omega (arith, t.tasks, on);
      made = omega (arith, t.made, n);
      ended = omega (arith, t.ended, n);
      marked = AllMarked-append c.workers (new_worker ∷ []) t.marked (inl (refl, refl), tt);
    }

pub step-Tallied :
    (c : Crew) (e : Event)
    → Tallied c
    → suc (length c.workers) < 2 ^ 64
    → Tallied (step c e) × (length (step c e).workers ≤ suc (length c.workers))
unfolding step
step-Tallied c create_event t small =
    (create_thread-Tallied c t small, omega (arith, length-append c.workers (new_worker ∷ [])))
step-Tallied c (state_event s) t small = (
  record {
    current = t.current;
    active = t.active;
    tasks = t.tasks;
    made = t.made;
    ended = t.ended;
    marked = t.marked;
  },
  omega arith,
)
step-Tallied c (worker_event k p) t small = elim (Option-cases (get_elem? c.workers k)) [
  | inl e ↦ rw (e, step) (t, omega arith)
  | inr (w, e) ↦
      let live = sum_le alive alive_le c.workers in
      let on = sum_le busy busy_le c.workers in
      let h =
        act-Changed c w (AllMarked-lookup c.workers k w t.marked e) (omega (arith, t.ended))
          (omega (arith, t.current)) (omega (arith, t.active)) (omega (arith, t.tasks))
          (omega (arith, t.current, part_of alive c.workers k w e))
          (omega (arith, t.active, part_of busy c.workers k w e))
          (omega (arith, t.tasks, part_of busy c.workers k w e)) w.stage p refl in
      rw (e, step) (put_worker-Tallied c (act c w w.stage p).0 w (act c w w.stage p).1 k t e h)
]
