-- ===== src/Adapter/Sleep.antt =====
-- One wait of `WaitPop` in include/mpmc/blocking_queue_adapter.hpp: a consumer holds `pop_mutex_` while
-- it looks and until `not_empty_` has it; the calls that notify it hold no mutex.
use cpp_mpmc_thread_pool.Base.{
  ℕ, suc, ◌+◌, ◌≤◌, ◌<◌, ◌^◌, ◌≡◌, refl, sym, ap, ◌∙◌, ◌⊎◌, inl, inr, true, false, Option, none,
  some, List, [], ◌∷◌, arith, length, length-append, ◌==◌, if◌then◌else◌, eq→==,
}
use cpp_mpmc_thread_pool.Adapter.{
  Adapter, Signal, not_empty_one, not_empty_all, not_full_one, not_full_all, Call, push_call,
  close_call, capacity, steps,
}
use cpp_mpmc_thread_pool.Adapter.Spec.{
  View, Models, view_push, view_close, view_step, view_steps, costs,
}
use cpp_mpmc_thread_pool.Adapter.Steps.{steps_refines}
use cpp_mpmc_thread_pool.Adapter.Wait.{taken, shut, no_item, attempt_pop}
use cpp_mpmc_thread_pool.Adapter.Waiting.{missed}

-- The consumer did not wait, was notified, or is still in its wait.
pub data Nap : Type 0 where
  not_needed woken sleeping : Nap

-- The notifications of `not_empty_` so far.
abbrev pub rings : List Signal → ℕ
rings [] = 0
rings (not_empty_one ∷ s) = suc (rings s)
rings (not_empty_all ∷ s) = suc (rings s)
rings (not_full_one ∷ s) = rings s
rings (not_full_all ∷ s) = rings s

-- What comes too early: pushes, or a call of `Close`.
pub data Early {ℓ} (A : Type ℓ) : Type ℓ where
  pushes_early : A → List A → Early A
  close_early : Early A

module _ {ℓ} {A : Type ℓ} where
  -- A look with the calls that come before `not_empty_` has the consumer, and those of its wait.
  unfoldable pub wait_once : List (Call A) → List (Call A) → Adapter A → Option (Nap × Adapter A)
  wait_once early late a = elim (attempt_pop a) [
    | none ↦ none
    | some (taken x, b) ↦ some (not_needed, b)
    | some (shut, b) ↦ some (not_needed, b)
    | some (no_item, b) ↦ elim (steps b early) [
      | none ↦ none
      | some c ↦ elim (steps c late) [
        | none ↦ none
        | some d ↦ some (if rings c.signals == rings d.signals then sleeping else woken, d)
      ]
    ]
  ]

  abbrev pub pushes : List A → List (Call A)
  pushes [] = []
  pushes (x ∷ xs) = push_call x ∷ pushes xs

  abbrev pub early_calls : Early A → List (Call A)
  early_calls (pushes_early x xs) = push_call x ∷ pushes xs
  early_calls close_early = close_call ∷ []

  -- There is something to wake a consumer for.
  abbrev pub Awaited : View A → Type 0
  Awaited v = (1 ≤ length v.items) ⊎ (v.closed ≡ true)

  push_items :
      (most : ℕ) (v : View A) (x : A)
      → 1 ≤ length v.items
      → (1 ≤ length (view_push most v x).1.items) × ((view_push most v x).1.signals ≡ v.signals)
  unfolding view_push
  push_items most v x n = (ground (arith, n, length-append v.items (x ∷ [])), ground (arith, n))

  push_closed :
      (most : ℕ) (v : View A) (x : A)
      → v.closed ≡ true
      → ((view_push most v x).1.closed ≡ true) × ((view_push most v x).1.signals ≡ v.signals)
  unfolding view_push
  push_closed most v x c = (ground (arith, c), ground (arith, c))

  push_quiet :
      (most : ℕ) (v : View A) (x : A)
      → Awaited v
      → Awaited (view_push most v x).1 × ((view_push most v x).1.signals ≡ v.signals)
  push_quiet most v x (inl n) = let (m, e) = push_items most v x n in (inl m, e)
  push_quiet most v x (inr c) = let (d, e) = push_closed most v x c in (inr d, e)

  -- The first push into an open queue with room.
  push_first :
      (most : ℕ) (v : View A) (x : A)
      → 1 ≤ most
      → v.items ≡ []
      → v.closed ≡ false
      → 1 ≤ length (view_push most v x).1.items
  unfolding view_push
  push_first most v x r e o =
      let n : length v.items ≡ 0 = ap length e in
      ground (arith, n, r, o, length-append v.items (x ∷ []))

  pushes_quiet :
      (most : ℕ) (xs : List A) (v : View A)
      → Awaited v
      → Awaited (view_steps most v (pushes xs))
        × ((view_steps most v (pushes xs)).signals ≡ v.signals)
  unfolding view_steps view_step
  pushes_quiet most [] v w = (w, refl)
  pushes_quiet most (x ∷ xs) v w =
      let (u, e) = push_quiet most v x w in
      let (r, f) = pushes_quiet most xs (view_push most v x).1 u in (r, f ∙ e)

  early-Awaited :
      (most : ℕ) (e : Early A) (v : View A)
      → 1 ≤ most
      → v.items ≡ []
      → v.closed ≡ false
      → Awaited (view_steps most v (early_calls e))
  unfolding view_steps view_step view_push view_close
  early-Awaited most close_early v c e o = inr refl
  early-Awaited most (pushes_early x xs) v c e o =
      (pushes_quiet most xs (view_push most v x).1 (inl (push_first most v x c e o))).0

  -- When a consumer has found an open queue empty and a call of `Close`, or a push with any
  -- further pushes, comes before `not_empty_` has the consumer, no later pushes notify the
  -- consumer: it is still in its wait, although the queue then has an item or is closed, unless a
  -- wake is spurious, on an adapter that stands for a view and as long as the pushes keep the
  -- positions below 2^63.
  pub wakeup_missed :
      (e : Early A) (xs : List A) {a : Adapter A} {v : View A}
      → Models a v
      → v.items ≡ []
      → v.closed ≡ false
      → a.queue.producer_pos + (costs (early_calls e) + costs (pushes xs)) + capacity a < 2 ^ 63
      → (d : Adapter A) × (w : View A) × (wait_once (early_calls e) (pushes xs) a
          ≡ some (sleeping, d))
        × Models d w
        × Awaited w
  unfolding wait_once attempt_pop
  wakeup_missed e xs {a} {v} m empty is_open small =
      let (c, f, w) = steps_refines (early_calls e) m (omega (arith, small)) in
      let (d, g, u) =
        steps_refines (pushes xs) w.models (omega (arith, small, w.tickets, w.same_capacity)) in
      let t = early-Awaited (capacity a) e v (omega (arith, m.holds.large)) empty is_open in
      let (r, q) = pushes_quiet (capacity c) xs _ t in
      let same : rings c.signals ≡ rings d.signals =
        ap rings (w.models.signalled ∙ sym q ∙ sym u.models.signalled) in
      let look = missed v m (omega (arith, small)) empty in
      (d, _, ground (arith, look, m.shut, is_open, f, g, eq→== _ _ same), u.models, r)
