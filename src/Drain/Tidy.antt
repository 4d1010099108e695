-- ===== src/Drain/Tidy.antt =====
-- What the counters of a drain in src/thread_pool.cpp say while no push is under way, and a worker's
-- step.
use cpp_mpmc_thread_pool.Base.{
  ℕ, zero, suc, ◌+◌, ◌^◌, ◌≤◌, ◌<◌, ◌≡◌, ◌≢◌, refl, ap, ◌∙◌, inl, inr, some, arith, get_elem?, set,
  ◌==◌, Bool-cases,
}
use cpp_mpmc_thread_pool.Base.Words.{add_size, sub_size}
use cpp_mpmc_thread_pool.Base.Totals.{total, total-set, total_le, total-lookup}
use cpp_mpmc_thread_pool.Drain.{
  Place, out, took, fetched, busy, off, seen, last, Stopper, away, checking, half, asleep, through,
  Drain, pop_task, notify_drained, advance, place_at,
}

abbrev pub holds_count : Place → ℕ
holds_count took = 1
holds_count _ = 0

abbrev pub runs : Place → ℕ
runs busy = 1
runs _ = 0

abbrev pub flies : Place → ℕ
flies out = 0
flies _ = 1

-- The counters are right, and a `Stop` that waits is not forgotten.
pub record Tidy (d : Drain) : Type 0 where
  pub counted : d.uncounted ≡ 0
  pub pending : d.pending_count ≡ d.tasks + total holds_count d.workers
  pub active : d.active_tasks ≡ total runs d.workers
  pub waited : d.stopper ≡ asleep → 1 ≤ d.tasks + total flies d.workers
  pub small : d.tasks + total flies d.workers < 2 ^ 64

pub holds_le : (p : Place) → holds_count p ≤ flies p
holds_le out = omega arith
holds_le took = omega arith
holds_le fetched = omega arith
holds_le busy = omega arith
holds_le off = omega arith
holds_le seen = omega arith
holds_le last = omega arith

pub runs_le : (p : Place) → runs p ≤ flies p
runs_le out = omega arith
runs_le took = omega arith
runs_le fetched = omega arith
runs_le busy = omega arith
runs_le off = omega arith
runs_le seen = omega arith
runs_le last = omega arith

-- The worker at `p` moves to `q`, in a drain that becomes `e`.
module _ (d : Drain) (t : Tidy d) (k : ℕ) (p : Place) (at : get_elem? d.workers k ≡ some p) where
  place_at-Tidy :
      (e : Drain) (q : Place)
      → e.workers ≡ d.workers
      → e.uncounted ≡ d.uncounted
      → e.pending_count + holds_count p + d.tasks ≡ d.pending_count + holds_count q + e.tasks
      → e.active_tasks + runs p ≡ d.active_tasks + runs q
      → e.tasks + flies q ≤ d.tasks + flies p
      → (e.stopper ≡ asleep → 1 ≤ e.tasks + total flies (set d.workers k q))
      → Tidy (place_at k (e, q))
  place_at-Tidy e q ws u pend advance fly wait =
      let h = total-set holds_count d.workers k p q at in
      let r = total-set runs d.workers k p q at in
      let f = total-set flies d.workers k p q at in
      let same = ap (λ xs. set xs k q) ws in
      record {
        counted = u ∙ t.counted;
        pending = omega (arith, h, pend, t.pending, ap (total holds_count) same);
        active = omega (arith, r, advance, t.active, ap (total runs) same);
        waited = λ s. omega (arith, wait s, ap (total flies) same);
        small = omega (arith, f, fly, t.small, ap (total flies) same);
      }

-- A place the others still leave something at: what a `Stop` that waits counts on.
module _ (d : Drain) (t : Tidy d) (k : ℕ) (p : Place) (at : get_elem? d.workers k ≡ some p) where
  runner_flies : runs p ≡ 0 → d.active_tasks ≢ 0 → 1 ≤ total flies (set d.workers k out)
  runner_flies z n =
      let r = total-set runs d.workers k p out at in
      let le = total_le runs flies runs_le (set d.workers k out) in
      omega (arith, r, le, z, n, t.active)

  holder_flies :
      holds_count p ≡ 0 → d.pending_count ≢ 0 → 1 ≤ d.tasks + total flies (set d.workers k out)
  holder_flies z n =
      let h = total-set holds_count d.workers k p out at in
      let le = total_le holds_count flies holds_le (set d.workers k out) in
      omega (arith, h, le, z, n, t.pending)

  stays_flying :
      (n : ℕ) (q : Place)
      → n + flies q ≡ d.tasks + flies p
      → d.stopper ≡ asleep
      → 1 ≤ n + total flies (set d.workers k q)
  stays_flying n q e s = omega (arith, total-set flies d.workers k p q at, e, t.waited s)

  -- The counters stay.
  move-Tidy :
      (q : Place)
      → holds_count p ≡ holds_count q
      → runs p ≡ runs q
      → flies q ≤ flies p
      → (d.stopper ≡ asleep → 1 ≤ d.tasks + total flies (set d.workers k q))
      → Tidy (place_at k (d, q))
  move-Tidy q h r f w =
      place_at-Tidy d t k p at d q refl refl (omega (arith, h)) (omega (arith, r))
        (omega (arith, f)) w

out-Tidy :
    (d : Drain)
    → Tidy d
    → (k : ℕ) → get_elem? d.workers k ≡ some out
    → (n : ℕ) → d.tasks ≡ n
    → Tidy (place_at k (pop_task d n))
unfolding pop_task
out-Tidy d t k at zero e =
    move-Tidy d t k out at out refl refl (omega arith)
      (stays_flying d t k out at d.tasks out (omega arith))
out-Tidy d t k at (suc n) e =
    place_at-Tidy d t k out at (record d { tasks = n }) took refl refl (omega (arith, e))
      (omega arith) (omega (arith, e)) (stays_flying d t k out at n took (omega (arith, e)))

last-Tidy :
    (d : Drain)
    → Tidy d
    → (k : ℕ) → get_elem? d.workers k ≡ some last
    → (s : Stopper) → d.stopper ≡ s
    → Tidy (place_at k (notify_drained d s))
unfolding notify_drained
last-Tidy d t k at asleep e =
    place_at-Tidy d t k last at (record d { stopper = checking }) out refl refl (omega arith)
      (omega arith) (omega arith) (λ s. absurd (cc))
last-Tidy d t k at checking e =
    move-Tidy d t k last at last refl refl (omega arith) (λ s. absurd (cc))
last-Tidy d t k at half e = move-Tidy d t k last at last refl refl (omega arith) (λ s. absurd (cc))
last-Tidy d t k at away e = move-Tidy d t k last at out refl refl (omega arith) (λ s. absurd (cc))
last-Tidy d t k at through e =
    move-Tidy d t k last at out refl refl (omega arith) (λ s. absurd (cc))

pub advance-Tidy :
    (d : Drain)
    → Tidy d
    → (k : ℕ) (p : Place) → get_elem? d.workers k ≡ some p
    → Tidy (place_at k (advance d p))
unfolding advance
advance-Tidy d t k took at =
    let h = total-lookup holds_count d.workers k took at in
    place_at-Tidy d t k took at (record d { pending_count = sub_size d.pending_count 1 }) fetched
      refl refl
      (omega (arith, h, t.pending, t.small, total_le holds_count flies holds_le d.workers))
      (omega arith) (omega arith) (stays_flying d t k took at d.tasks fetched (omega arith))
advance-Tidy d t k fetched at =
    let h = total-lookup flies d.workers k fetched at in
    let r = total-set runs d.workers k fetched busy at in
    place_at-Tidy d t k fetched at (record d { active_tasks = add_size d.active_tasks 1 }) busy refl
      refl (omega arith)
      (omega (
        arith,
        t.active,
        t.small,
        r,
        total-set flies d.workers k fetched busy at,
        total_le runs flies runs_le (set d.workers k busy),
      ))
      (omega arith) (stays_flying d t k fetched at d.tasks busy (omega arith))
advance-Tidy d t k busy at =
    let h = total-lookup runs d.workers k busy at in
    place_at-Tidy d t k busy at (record d { active_tasks = sub_size d.active_tasks 1 }) off refl
      refl (omega arith)
      (omega (arith, h, t.active, t.small, total_le runs flies runs_le d.workers)) (omega arith)
      (stays_flying d t k busy at d.tasks off (omega arith))
advance-Tidy d t k out at = out-Tidy d t k at d.tasks refl
advance-Tidy d t k off at = elim (Bool-cases (d.active_tasks == 0)) [
  | inl e ↦ rw (e) (
      move-Tidy d t k off at seen refl refl (omega arith)
        (stays_flying d t k off at d.tasks seen (omega arith)))
  | inr e ↦ rw (e) (
      move-Tidy d t k off at out refl refl (omega arith)
        (λ s. omega (arith, runner_flies d t k off at refl (ground (arith, e)))))
]
advance-Tidy d t k seen at = elim (Bool-cases (d.pending_count == 0)) [
  | inl e ↦ rw (e) (
      move-Tidy d t k seen at last refl refl (omega arith)
        (stays_flying d t k seen at d.tasks last (omega arith)))
  | inr e ↦ rw (e) (
      move-Tidy d t k seen at out refl refl (omega arith)
        (λ s. holder_flies d t k seen at refl (ground (arith, e))))
]
advance-Tidy d t k last at = last-Tidy d t k at d.stopper refl
