-- ===== src/Adapter/WaitBatchSize.antt =====
-- How many items `WaitPopBatch` of include/mpmc/blocking_queue_adapter.hpp returns.
use cpp_mpmc_thread_pool.Base.{
  ℕ, zero, suc, ◌+◌, ◌-◌, ◌≤◌, min, ◌<◌, ◌^◌, ◌≡◌, sym, ap, ◌∙◌, ◌⊎◌, inl, inr, true, false, ◌||◌,
  Option, none, some, List, [], ◌∷◌, ◌++◌, arith, length, take, leb, ◌==◌, Bool-cases, ==→eq, ◌≢◌,
  length-append, length-take,
}
use cpp_mpmc_thread_pool.Adapter.{Adapter, Call, capacity}
use cpp_mpmc_thread_pool.Adapter.Spec.{View, Models, view_pop_batch, view_steps}
use cpp_mpmc_thread_pool.Adapter.Wait.{Waited, returned}
use cpp_mpmc_thread_pool.Adapter.WaitSpec.{view_look, view_first_look, view_wait_pop}
use cpp_mpmc_thread_pool.Adapter.Waiting.{List-cases}
use cpp_mpmc_thread_pool.Adapter.WaitBatch.{Turn, least, wait_pop_batch}
use cpp_mpmc_thread_pool.Adapter.WaitBatchSpec.{turn_costs, view_missing, view_wait_pop_batch}
use cpp_mpmc_thread_pool.Adapter.WaitBatching.{Waited-cases}
use cpp_mpmc_thread_pool.Adapter.WaitBatchPop.{Option-result, wait_pop_batch_refines}

least_le : (max_count min_count : ℕ) → 0 < max_count → least max_count min_count ≤ max_count
least_le max_count min_count pos = ground arith

returned_injective {ℓ} :
    {A : Type ℓ} {x y : A} → ◌≡◌ {A = Waited A} (returned x) (returned y) → x ≡ y
returned_injective e = cc

result_injective {ℓ κ} :
    {A : Type ℓ} {B : Type κ} {x y : A} {b c : B}
    → ◌≡◌ {A = Option (A × B)} (some (x, b)) (some (y, c))
    → (x ≡ y) × (b ≡ c)
result_injective e = (cc, cc)

module _ {ℓ} {A : Type ℓ} (cap : ℕ) where
  -- A consumer goes without an item only from a closed queue.
  shut_only :
      (rounds : List (List (Call A))) (v : View A)
      → (view_wait_pop cap rounds v).0 ≡ returned none
      → (view_wait_pop cap rounds v).1.closed ≡ true
  unfolding view_wait_pop view_look
  shut_only [] v e = elim (List-cases v.items) [
    | inl h ↦ elim (Bool-cases v.closed) [
      | inl c ↦ ground (arith, h, c)
      | inr c ↦ absurd (ground (arith, h, c, e))
    ]
    | inr (x, xs, h) ↦ absurd (ground (arith, h, e))
  ]
  shut_only (round ∷ rounds) v e = elim (List-cases v.items) [
    | inl h ↦ elim (Bool-cases v.closed) [
      | inl c ↦ ground (arith, h, c)
      | inr c ↦
          let f : (view_wait_pop cap rounds (view_steps cap v round)).0 ≡ returned none =
            ground (arith, h, c, e) in
          ground (arith, h, c, shut_only rounds (view_steps cap v round) f)
    ]
    | inr (x, xs, h) ↦ absurd (ground (arith, h, e))
  ]

  first_shut_only :
      (xs : List A) (v : View A) (later : Waited (Option A) × View A)
      → (later.0 ≡ returned none → later.1.closed ≡ true)
      → (view_first_look xs v later).0 ≡ returned none
      → (view_first_look xs v later).1.closed ≡ true
  unfolding view_first_look
  first_shut_only [] v later h e = h e
  first_shut_only (x ∷ xs) v later h e = absurd (cc)

  -- The items of `WaitPop`s: one for each that was missing, unless the queue closed.
  missing_size :
      (k : ℕ) (turns : List (Turn A)) (v : View A) (out : List A)
      → let (r, got, w) = view_missing cap k turns v out in
        (length got ≤ length out + k)
        × ((r ≡ returned true → length got ≡ length out + k)
            × (r ≡ returned false → w.closed ≡ true))
  unfolding view_missing
  missing_size zero turns v out = (omega arith, ((λ e. omega arith), λ e. absurd (cc)))
  missing_size (suc k) [] v out = (omega arith, ((λ e. absurd (cc)), λ e. absurd (cc)))
  missing_size (suc k) (t ∷ turns) v out =
      let w = view_steps cap v t.before in
      let later = view_wait_pop cap t.rounds (view_steps cap w t.locking) in
      let look = view_first_look w.items w later in
      elim (Option-result look.0) [
        | inl (x, got) ↦
            let h = missing_size k turns look.1 (out ++ x ∷ []) in
            let n = length-append out (x ∷ []) in
            (
              ground (arith, got, n, h.0),
              ((λ e. ground (arith, got, n, h.1.0, e)), λ e. ground (arith, got, h.1.1, e)),
            )
        | inr (inl shut) ↦
            let h =
              first_shut_only w.items w later (shut_only t.rounds (view_steps cap w t.locking))
                shut in
            (
              ground (arith, shut),
              ((λ e. absurd (ground (arith, shut, e))), λ e. ground (arith, shut, h)),
            )
        | inr (inr wait) ↦ (
          ground (arith, wait),
          ((λ e. absurd (ground (arith, wait, e))), λ e. absurd (ground (arith, wait, e))),
        )
      ]

  view_size :
      (turns : List (Turn A)) (v : View A) (max_count min_count : ℕ) (xs : List A)
      → (view_wait_pop_batch cap turns v max_count min_count).0 ≡ returned xs
      → (length xs ≤ max_count)
        × ((least max_count min_count ≤ length xs)
            ⊎ (((view_wait_pop_batch cap turns v max_count min_count).1.closed ≡ true)
                ⊎ (max_count ≡ 0)))
  unfolding view_wait_pop_batch view_pop_batch
  view_size turns v max_count min_count xs e =
      let popped = min max_count (length v.items) in
      let w = (view_pop_batch cap v max_count).2 in
      let n = length-take max_count v.items in
      elim (Bool-cases (leb (least max_count min_count) popped || (popped == max_count))) [
        | inl done ↦
            let same : take max_count v.items ≡ xs = returned_injective (ground (arith, done, e)) in
            let k : length xs ≡ popped = sym (ap length same) ∙ n in
            elim (Bool-cases (leb (least max_count min_count) popped)) [
              | inl fits ↦ (omega arith, inl (ground (arith, k, fits)))
              | inr low ↦
                  let m : popped ≡ max_count = ground (arith, done, low) in
                  (
                    omega arith,
                    elim (Bool-cases (max_count == 0)) [
                      | inl nothing ↦ inr (inr (==→eq _ _ nothing))
                      | inr something ↦ inl (
                          omega
                            (arith, k, m, least_le max_count min_count (ground (arith, something))))
                    ],
                  )
            ]
        | inr short ↦
            let missing =
              view_missing cap (least max_count min_count - popped) turns w
                (take max_count v.items) in
            let h =
              missing_size (least max_count min_count - popped) turns w (take max_count v.items) in
            elim (Waited-cases missing.0) [
              | inl whole ↦
                  let more = view_pop_batch cap missing.2 (max_count - least max_count min_count) in
                  let got : length missing.1
                      ≡ length (take max_count v.items) + (least max_count min_count - popped) =
                    h.1.0 whole in
                  let same : missing.1 ++ more.0 ≡ xs =
                    returned_injective (ground (arith, short, whole, e)) in
                  let k = sym (ap length same) ∙ length-append missing.1 more.0 in
                  let m = length-take (max_count - least max_count min_count) missing.2.items in
                  let low : popped < least max_count min_count = ground (arith, short) in
                  let below : popped ≢ max_count = ground (arith, short) in
                  let le = least_le max_count min_count (omega arith) in
                  (omega (arith, k, m, n, got), inl (omega (arith, k, m, n, got)))
              | inr (inl stop) ↦
                  let same : missing.1 ≡ xs = returned_injective (ground (arith, short, stop, e)) in
                  let low : popped < least max_count min_count = ground (arith, short) in
                  let below : popped ≢ max_count = ground (arith, short) in
                  let le = least_le max_count min_count (omega arith) in
                  (
                    omega (arith, h.0, n, ap length same),
                    inr (inl (ground (arith, short, stop, h.1.1 stop))),
                  )
              | inr (inr wait) ↦ absurd (ground (arith, short, wait, e))
            ]
      ]

-- When `WaitPopBatch` returns, it returns at most `max_count` items, and at least `min_count` (1
-- if that is 0 or above `max_count`) unless the queue is closed or `max_count` is 0, on an adapter
-- that stands for a view and as long as the calls of the other threads keep the positions below
-- 2^63.
pub wait_pop_batch_size {ℓ} :
    {A : Type ℓ} (turns : List (Turn A)) (max_count min_count : ℕ) {a : Adapter A} {v : View A}
    → Models a v
    → a.queue.producer_pos + turn_costs turns + capacity a < 2 ^ 63
    → (xs : List A) (b : Adapter A)
    → wait_pop_batch turns a max_count min_count ≡ some (returned xs, b)
    → (length xs ≤ max_count)
      × ((least max_count min_count ≤ length xs) ⊎ ((b.close ≡ true) ⊎ (max_count ≡ 0)))
wait_pop_batch_size turns max_count min_count {a} {v} m small xs b e =
    let (c, f, w) = wait_pop_batch_refines turns max_count min_count m small in
    let (s, same) = result_injective (sym f ∙ e) in
    let h = view_size (capacity a) turns v max_count min_count xs s in
    let shut = ap (λ (d : Adapter _). d.close) (sym same) ∙ w.models.shut in
    (
      h.0,
      elim h.1 [
        | inl enough ↦ inl enough
        | inr (inl stopped) ↦ inr (inl (shut ∙ stopped))
        | inr (inr nothing) ↦ inr (inr nothing)
      ],
    )
