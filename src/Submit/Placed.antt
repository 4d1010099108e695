-- ===== src/Submit/Placed.antt =====
-- Where a push leaves the task of a `Submit` of include/thread_pool/thread_pool.hpp.
use cpp_mpmc_thread_pool.Base.{ℕ, ◌≡◌, refl, inl, inr, true, List, [], ◌∷◌, ◌++◌, arith, Bool-cases}
use cpp_mpmc_thread_pool.Adapter.{Call}
use cpp_mpmc_thread_pool.Adapter.Spec.{
  View, has_room, view_push, view_overwrite, view_overwrite_first, view_steps,
}
use cpp_mpmc_thread_pool.Adapter.Wait.{returned}
use cpp_mpmc_thread_pool.Adapter.WaitSpec.{view_wait_push}
use cpp_mpmc_thread_pool.Submit.{Reply, accepted}

module _ {ℓ} {A : Type ℓ} where
  -- Where the task is, by the reply.
  abbrev pub Placed : Reply → A → View A → Type ℓ
  Placed accepted t w = (front : List A) × (w.items ≡ front ++ t ∷ [])
  Placed _ t w = Unit

  module _ (cap : ℕ) where
    pub push-Placed :
        (v : View A) (x : A)
        → (view_push cap v x).0 ≡ true
        → Placed accepted x (view_push cap v x).1
    unfolding view_push
    push-Placed v x e = elim (Bool-cases v.closed) [
      | inl c ↦ absurd (ground (arith, c, e))
      | inr c ↦ elim (Bool-cases (has_room cap v)) [
        | inl room ↦ (v.items, ground (arith, c, room))
        | inr full_up ↦ absurd (ground (arith, c, full_up, e))
      ]
    ]

    pub wait_push-Placed :
        (rounds : List (List (Call A))) (v : View A) (x : A)
        → (view_wait_push cap rounds v x).0 ≡ returned true
        → Placed accepted x (view_wait_push cap rounds v x).1
    unfolding view_wait_push view_push
    wait_push-Placed [] v x e = elim (Bool-cases v.closed) [
      | inl c ↦ absurd (ground (arith, c, e))
      | inr c ↦ elim (Bool-cases (has_room cap v)) [
        | inl room ↦ (v.items, ground (arith, c, room))
        | inr full_up ↦ absurd (ground (arith, c, full_up, e))
      ]
    ]
    wait_push-Placed (round ∷ rounds) v x e = elim (Bool-cases v.closed) [
      | inl c ↦ absurd (ground (arith, c, e))
      | inr c ↦ elim (Bool-cases (has_room cap v)) [
        | inl room ↦ (v.items, ground (arith, c, room))
        | inr full_up ↦
            let f : (view_wait_push cap rounds (view_steps cap v round) x).0 ≡ returned true =
              ground (arith, c, full_up, e) in
            let (front, h) = wait_push-Placed rounds (view_steps cap v round) x f in
            (front, ground (arith, c, full_up, h))
      ]
    ]

  module _ (cap : ℕ) where
    overwrite_first-Placed :
        (xs : List A) (v : View A) (x : A)
        → (view_overwrite_first xs v x).0 ≡ true
        → Placed accepted x (view_overwrite_first xs v x).2
    unfolding view_overwrite_first
    overwrite_first-Placed [] v x e = absurd (cc)
    overwrite_first-Placed (y ∷ ys) v x e = (ys, refl)

    pub overwrite-Placed :
        (v : View A) (x : A)
        → (view_overwrite cap v x).0 ≡ true
        → Placed accepted x (view_overwrite cap v x).2
    unfolding view_overwrite
    overwrite-Placed v x e = elim (Bool-cases v.closed) [
      | inl c ↦ absurd (ground (arith, c, e))
      | inr c ↦ elim (Bool-cases (has_room cap v)) [
        | inl room ↦ (v.items, ground (arith, c, room))
        | inr full_up ↦
            let f : (view_overwrite_first v.items v x).0 ≡ true = ground (arith, c, full_up, e) in
            let (front, h) = overwrite_first-Placed v.items v x f in
            (front, ground (arith, c, full_up, h))
      ]
    ]
