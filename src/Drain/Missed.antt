-- ===== src/Drain/Missed.antt =====
-- A graceful `Stop` of src/thread_pool.cpp against the push of a `Post` that is still to be counted.
use cpp_mpmc_thread_pool.Base.{
  ℕ, zero, suc, ◌≡◌, ◌∙◌, refl, ap, ◌⊎◌, inl, inr, none, some, List, [], ◌∷◌, ◌++◌, get_elem?, set,
}
use cpp_mpmc_thread_pool.Drain.{
  Place, out, away, asleep, Drain, Event, push_event, count_event, stop_event, spurious_event,
  worker_event, pop_task, notify_drained, advance, drained_yet, step, steps,
}

abbrev pub outs : ℕ → List Place
outs zero = []
outs (suc n) = out ∷ outs n

-- So many workers in `WaitPop` on an empty queue.
abbrev pub fresh : ℕ → Drain
fresh n = record {
  tasks = 0;
  uncounted = 0;
  pending_count = 0;
  active_tasks = 0;
  workers = outs n;
  stopper = away;
}

-- `Post` has stored its task but not added to the pending count; a worker runs the task to its end
-- and finds a count below zero; `Stop` finds it as well and waits; then `Post` adds to it.
abbrev pub overtaken : List Event
overtaken =
    push_event
    ∷ worker_event 0
    ∷ worker_event 0
    ∷ worker_event 0
    ∷ worker_event 0
    ∷ worker_event 0
    ∷ worker_event 0
    ∷ stop_event
    ∷ stop_event
    ∷ count_event
    ∷ []

unfoldable pub Later : List Event → Type 0
Later [] = Unit
Later (stop_event ∷ es) = Later es
Later (worker_event k ∷ es) = Later es
Later (_ ∷ es) = ⊥

-- Nothing is left to do, and `Stop` waits.
abbrev stuck : ℕ → Drain
stuck n = record (fresh n) { stopper = asleep }

out-outs : (n k : ℕ) → (get_elem? (outs n) k ≡ none) ⊎ (get_elem? (outs n) k ≡ some out)
out-outs zero k = inl refl
out-outs (suc n) zero = inr refl
out-outs (suc n) (suc k) = out-outs n k

set-outs : (n k : ℕ) → set (outs n) k out ≡ outs n
set-outs zero k = refl
set-outs (suc n) zero = refl
set-outs (suc n) (suc k) = ap (λ xs. out ∷ xs) (set-outs n k)

worker_stuck : (n k : ℕ) → step (stuck n) (worker_event k) ≡ stuck n
unfolding step advance pop_task
worker_stuck n k = elim (out-outs n k) [
  | inl e ↦ rw (e, step) refl
  | inr e ↦ rw (e, step) (ap (λ ws. record (stuck n) { workers = ws }) (set-outs n k))
]

steps-stuck : (n : ℕ) (es : List Event) → Later es → steps (stuck n) es ≡ stuck n
unfolding steps step drained_yet Later
steps-stuck n [] l = refl
steps-stuck n (stop_event ∷ es) l = steps-stuck n es l
steps-stuck n (worker_event k ∷ es) l = ap (λ d. steps d es) (worker_stuck n k) ∙ steps-stuck n es l
steps-stuck n (push_event ∷ es) l = absurd l
steps-stuck n (count_event ∷ es) l = absurd l
steps-stuck n (spurious_event ∷ es) l = absurd l

overtaken-stuck : (n : ℕ) → steps (fresh (suc n)) overtaken ≡ stuck (suc n)
unfolding steps step drained_yet advance pop_task notify_drained
overtaken-stuck n = refl

steps-append : (d : Drain) (es fs : List Event) → steps d (es ++ fs) ≡ steps (steps d es) fs
unfolding steps
steps-append d [] fs = refl
steps-append d (e ∷ es) fs = steps-append (step d e) es fs

-- With any number of workers from one on: if a push has stored its task but not added it to the
-- pending count when a worker runs the task to its end and a graceful `Stop` begins to wait, and
-- the push adds to the count only then, `Stop` keeps waiting whatever steps the workers and `Stop`
-- take, as long as no task is pushed and no wake is spurious, although no task is left, both
-- counts are 0 and every worker is idle.
pub stop_missed :
    (n : ℕ) (es : List Event)
    → Later es
    → let d = steps (fresh (suc n)) (overtaken ++ es) in
      (d.tasks ≡ 0)
      × (d.pending_count ≡ 0)
      × (d.active_tasks ≡ 0)
      × (d.workers ≡ outs (suc n))
      × (d.stopper ≡ asleep)
stop_missed n es l =
    let e =
      steps-append (fresh (suc n)) overtaken es
      ∙ ap (λ d. steps d es) (overtaken-stuck n)
      ∙ steps-stuck (suc n) es l in
    rw (e) (refl, refl, refl, refl, refl)
