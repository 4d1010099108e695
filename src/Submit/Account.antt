-- ===== src/Submit/Account.antt =====
-- What a call of `Submit` of include/thread_pool/thread_pool.hpp leaves behind.
use cpp_mpmc_thread_pool.Base.{ℕ, suc, ◌+◌, ◌^◌, ◌<◌, ◌≡◌, Option, some}
use cpp_mpmc_thread_pool.Adapter.Spec.{View, Becomes}
use cpp_mpmc_thread_pool.Submit.{Desk, Reply, accepted, broken, thrown, waiting}
use cpp_mpmc_thread_pool.Submit.Placed.{Placed}

-- The calls in progress behind a call.
abbrev pub in_progress : Reply → ℕ → ℕ
in_progress waiting n = suc n
in_progress _ n = n

module _ {ℓ} {A : Type ℓ} where
  -- The counters behind the call. Tasks that were overwritten are cancelled as well.
  abbrev pub Accounted : Reply → Desk A → Desk A → Type 0
  Accounted accepted d e =
      (e.total_submitted ≡ suc d.total_submitted)
      × (e.total_rejected ≡ d.total_rejected)
      × (e.total_cancelled + d.overwrite_cnt ≡ d.total_cancelled + e.overwrite_cnt)
  Accounted broken d e =
      (e.total_submitted ≡ d.total_submitted)
      × (e.total_rejected + e.total_cancelled + d.overwrite_cnt
          ≡ suc (d.total_rejected + d.total_cancelled + e.overwrite_cnt))
  Accounted thrown d e =
      (e.total_submitted ≡ d.total_submitted)
      × (e.total_rejected ≡ suc d.total_rejected)
      × (e.total_cancelled ≡ d.total_cancelled)
  Accounted waiting d e =
      (e.total_submitted ≡ d.total_submitted)
      × (e.total_rejected ≡ d.total_rejected)
      × (e.total_cancelled ≡ d.total_cancelled)

  -- No counter wraps around.
  pub record Small (d : Desk A) : Type 0 where
    pub submitted : suc d.total_submitted < 2 ^ 64
    pub refused : suc d.total_rejected < 2 ^ 64
    pub cancels : suc d.total_cancelled < 2 ^ 64
    pub overwritten : suc d.overwrite_cnt < 2 ^ 64

  -- The call below the gate, from a desk `c`.
  abbrev Outcome : Desk A → ℕ → A → Option (Reply × Desk A) → Type ℓ
  Outcome c n t o =
      (r : Reply) × (e : Desk A) × (w : View A) × (o ≡ some (r, e))
      × Becomes c.queue n e.queue w
      × Placed r t w
      × Accounted r c e
      × (e.submit_ing ≡ c.submit_ing)
