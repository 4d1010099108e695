-- ===== src/Drain/Woken.antt =====
-- With no push under way a graceful `Stop` of src/thread_pool.cpp is woken.
use cpp_mpmc_thread_pool.Base.{
  ℕ, ◌+◌, ◌≤◌, ◌≡◌, ◌≢◌, refl, inl, inr, false, List, [], ◌∷◌, arith, get_elem?, ◌==◌, Bool-cases,
  Option-cases,
}
use cpp_mpmc_thread_pool.Base.Totals.{total, total_le}
use cpp_mpmc_thread_pool.Drain.{
  Stopper, away, checking, half, asleep, through, Drain, Event, push_event, count_event, stop_event,
  spurious_event, worker_event, wake_stop, drained_yet, step, steps,
}
use cpp_mpmc_thread_pool.Drain.Tidy.{
  holds_count, runs, flies, Tidy, holds_le, runs_le, advance-Tidy,
}

halt-Tidy :
    (d : Drain)
    → Tidy d
    → (s : Stopper) → (s ≡ asleep → 1 ≤ d.tasks + total flies d.workers)
    → Tidy (record d { stopper = s })
halt-Tidy d t s w = record {
  counted = t.counted;
  pending = t.pending;
  active = t.active;
  waited = w;
  small = t.small;
}

==→ne : (n : ℕ) → (n == 0) ≡ false → n ≢ 0
==→ne n e = ground (arith, e)

stop-Tidy :
    (d : Drain)
    → Tidy d
    → (s : Stopper) → d.stopper ≡ s
    → Tidy (record d { stopper = drained_yet d s })
unfolding drained_yet
stop-Tidy d t asleep e = halt-Tidy d t asleep (λ s. t.waited e)
stop-Tidy d t checking e = elim (Bool-cases (d.pending_count == 0)) [
  | inl z ↦ rw (z) (halt-Tidy d t half (λ s. absurd (cc)))
  | inr z ↦ rw (z) (
      halt-Tidy d t asleep (λ s.
        omega (
          arith,
          t.pending,
          ==→ne d.pending_count z,
          total_le holds_count flies holds_le d.workers,
        )))
]
stop-Tidy d t half e = elim (Bool-cases (d.active_tasks == 0)) [
  | inl z ↦ rw (z) (halt-Tidy d t through (λ s. absurd (cc)))
  | inr z ↦ rw (z) (
      halt-Tidy d t asleep (λ s.
        omega (arith, t.active, ==→ne d.active_tasks z, total_le runs flies runs_le d.workers)))
]
stop-Tidy d t away e = halt-Tidy d t checking (λ s. absurd (cc))
stop-Tidy d t through e = halt-Tidy d t through (λ s. absurd (cc))

-- The event is neither a push nor its count.
unfoldable pub Settled : List Event → Type 0
Settled [] = Unit
Settled (push_event ∷ es) = ⊥
Settled (count_event ∷ es) = ⊥
Settled (stop_event ∷ es) = Settled es
Settled (spurious_event ∷ es) = Settled es
Settled (worker_event k ∷ es) = Settled es

settle :
    (d : Drain) → Tidy d → (s : Stopper) → d.stopper ≡ s → Tidy (record d { stopper = wake_stop s })
settle d t asleep e = halt-Tidy d t checking (λ s. absurd (cc))
settle d t away e = halt-Tidy d t away (λ s. absurd (cc))
settle d t checking e = halt-Tidy d t checking (λ s. absurd (cc))
settle d t half e = halt-Tidy d t half (λ s. absurd (cc))
settle d t through e = halt-Tidy d t through (λ s. absurd (cc))

turn-Tidy : (d : Drain) → Tidy d → (k : ℕ) → Tidy (step d (worker_event k))
unfolding step
turn-Tidy d t k = elim (Option-cases (get_elem? d.workers k)) [
  | inl e ↦ rw (e, step) t
  | inr (p, e) ↦ rw (e, step) (advance-Tidy d t k p e)
]

steps-Tidy : (d : Drain) (es : List Event) → Settled es → Tidy d → Tidy (steps d es)
unfolding steps step Settled
steps-Tidy d [] s t = t
steps-Tidy d (stop_event ∷ es) s t =
    steps-Tidy (step d stop_event) es s (stop-Tidy d t d.stopper refl)
steps-Tidy d (spurious_event ∷ es) s t =
    steps-Tidy (step d spurious_event) es s (settle d t d.stopper refl)
steps-Tidy d (worker_event k ∷ es) s t = steps-Tidy (step d (worker_event k)) es s (turn-Tidy d t k)
steps-Tidy d (push_event ∷ es) s t = absurd s
steps-Tidy d (count_event ∷ es) s t = absurd s

goes_through :
    (d : Drain)
    → d.pending_count ≡ 0
    → d.active_tasks ≡ 0
    → (s : Stopper) → s ≢ asleep
    → (steps (record d { stopper = s }) (stop_event ∷ stop_event ∷ stop_event ∷ [])).stopper
      ≡ through
unfolding steps step drained_yet
goes_through d p a away n = rw (p, a) refl
goes_through d p a checking n = rw (p, a) refl
goes_through d p a half n = rw (a) refl
goes_through d p a asleep n = absurd (n refl)
goes_through d p a through n = refl

-- Whatever steps the workers and a graceful `Stop` take in whatever order, with spurious wakes of
-- `Stop` or without, from a pool whose counters are right and with no push under way: once no task
-- is left and every worker is back in its wait for one, three steps of `Stop` take it behind its
-- wait for the tasks, so no notification was missed.
pub drain_woken :
    (d : Drain) (es : List Event)
    → Tidy d
    → Settled es
    → (steps d es).tasks ≡ 0
    → total flies (steps d es).workers ≡ 0
    → (steps (steps d es) (stop_event ∷ stop_event ∷ stop_event ∷ [])).stopper ≡ through
drain_woken d es t s none_left all_out =
    let u = steps-Tidy d es s t in
    let e = steps d es in
    let h = total_le holds_count flies holds_le e.workers in
    let r = total_le runs flies runs_le e.workers in
    goes_through e (omega (arith, u.pending, h, none_left, all_out))
      (omega (arith, u.active, r, all_out)) e.stopper
      (λ w. omega (arith, u.waited w, none_left, all_out))
