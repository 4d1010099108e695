-- ===== src/Adapter/WaitBatchPop.antt =====
-- `WaitPopBatch` of include/mpmc/blocking_queue_adapter.hpp against its specification.
use cpp_mpmc_thread_pool.Base.{
  ℕ, zero, suc, ◌+◌, ◌-◌, ◌<◌, ◌^◌, ◌≡◌, refl, ◌⊎◌, inl, inr, ◌||◌, Option, none, some, List, [],
  ◌∷◌, ◌++◌, arith, leb, ◌==◌, Bool-cases,
}
use cpp_mpmc_thread_pool.Adapter.{Adapter, capacity}
use cpp_mpmc_thread_pool.Adapter.Spec.{View, Models, Becomes, view_pop_batch, view_steps}
use cpp_mpmc_thread_pool.Adapter.Refine.{try_pop_batch_refines}
use cpp_mpmc_thread_pool.Adapter.Steps.{steps_refines}
use cpp_mpmc_thread_pool.Adapter.Wait.{Waited, returned, blocked}
use cpp_mpmc_thread_pool.Adapter.WaitSpec.{view_first_look, view_wait_pop}
use cpp_mpmc_thread_pool.Adapter.Waiting.{wait_pop_refines}
use cpp_mpmc_thread_pool.Adapter.WaitBatch.{Turn, least, pop_missing, wait_pop_batch}
use cpp_mpmc_thread_pool.Adapter.WaitBatchSpec.{turn_costs, view_missing, view_wait_pop_batch}
use cpp_mpmc_thread_pool.Adapter.WaitBatching.{Waited-cases}

pub Option-result {ℓ} :
    {A : Type ℓ} (r : Waited (Option A))
    → ((x : A) × (r ≡ returned (some x))) ⊎ ((r ≡ returned none) ⊎ (r ≡ blocked))
Option-result (returned (some x)) = inl (x, refl)
Option-result (returned none) = inr (inl refl)
Option-result blocked = inr (inr refl)

module _ {ℓ} {A : Type ℓ} where
  pop_missing_refines :
      (k : ℕ) (turns : List (Turn A)) (out : List A) {a : Adapter A} {v : View A}
      → Models a v
      → a.queue.producer_pos + turn_costs turns + capacity a < 2 ^ 63
      → let (r, got, w) = view_missing (capacity a) k turns v out in
        (b : Adapter A) × (pop_missing k turns a out ≡ some (r, got, b))
        × Becomes a (turn_costs turns) b w
  unfolding pop_missing view_missing
  pop_missing_refines zero turns out {a} m small =
      (a, refl, record { models = m; same_capacity = refl; tickets = omega arith })
  pop_missing_refines (suc k) [] out {a} m small =
      (a, refl, record { models = m; same_capacity = refl; tickets = omega arith })
  pop_missing_refines (suc k) (t ∷ turns) out {a} {v} m small =
      let (b, e, w) = steps_refines t.before m (omega arith) in
      let u = view_steps (capacity a) v t.before in
      let (c, f, w') =
        wait_pop_refines t.locking t.rounds w.models (omega (arith, w.tickets, w.same_capacity)) in
      elim (Option-result
        (view_first_look u.items u
          (view_wait_pop (capacity b) t.rounds (view_steps (capacity b) u t.locking))).0) [
            | inl (x, got) ↦
                let (d, g, w'') =
                  pop_missing_refines k turns (out ++ x ∷ []) w'.models
                    (omega (arith, w.tickets, w.same_capacity, w'.tickets, w'.same_capacity)) in
                (
                  d,
                  ground (arith, e, f, g, got, w.same_capacity, w'.same_capacity),
                  ground
                      (arith, w'', w'.same_capacity, w'.tickets, w.same_capacity, w.tickets, got),
                )
            | inr (inl closed) ↦ (
              c,
              ground (arith, e, f, closed, w.same_capacity),
              ground (arith, w', w.same_capacity, w.tickets, closed),
            )
            | inr (inr wait) ↦ (
              c,
              ground (arith, e, f, wait, w.same_capacity),
              ground (arith, w', w.same_capacity, w.tickets, wait),
            )
          ]

  pub wait_pop_batch_refines :
      (turns : List (Turn A)) (max_count min_count : ℕ) {a : Adapter A} {v : View A}
      → Models a v
      → a.queue.producer_pos + turn_costs turns + capacity a < 2 ^ 63
      → let (r, w) = view_wait_pop_batch (capacity a) turns v max_count min_count in
        (b : Adapter A) × (wait_pop_batch turns a max_count min_count ≡ some (r, b))
        × Becomes a (turn_costs turns) b w
  unfolding wait_pop_batch view_wait_pop_batch
  wait_pop_batch_refines turns max_count min_count {a} {v} m small =
      let (b, e, w) = try_pop_batch_refines v m (omega arith) max_count in
      let popped = (view_pop_batch (capacity a) v max_count).1 in
      let out = (view_pop_batch (capacity a) v max_count).0 in
      let w0 = (view_pop_batch (capacity a) v max_count).2 in
      elim (Bool-cases (leb (least max_count min_count) popped || (popped == max_count))) [
        | inl done ↦ (b, ground (arith, e, done), ground (arith, w, done))
        | inr short ↦
            let (c, f, w') =
              pop_missing_refines (least max_count min_count - popped) turns out w.models
                (omega (arith, w.tickets, w.same_capacity)) in
            elim (Waited-cases
              (view_missing (capacity b) (least max_count min_count - popped) turns w0 out).0) [
                | inl whole ↦
                    let (d, g, w'') =
                      try_pop_batch_refines _ w'.models
                        (omega (arith, w.tickets, w.same_capacity, w'.tickets, w'.same_capacity))
                        (max_count - least max_count min_count) in
                    (
                      d,
                      ground (arith, e, f, g, short, whole, w.same_capacity, w'.same_capacity),
                      ground (
                        arith, w'', w'.same_capacity, w'.tickets, w.same_capacity, w.tickets, short,
                        whole,
                      ),
                    )
                | inr (inl stop) ↦ (
                  c,
                  ground (arith, e, f, short, stop, w.same_capacity),
                  ground (arith, w', w.same_capacity, w.tickets, short, stop),
                )
                | inr (inr wait) ↦ (
                  c,
                  ground (arith, e, f, short, wait, w.same_capacity),
                  ground (arith, w', w.same_capacity, w.tickets, short, wait),
                )
              ]
      ]
