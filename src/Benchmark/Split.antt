-- ===== src/Benchmark/Split.antt =====
-- How `RunTaskCountBenchmark` of bench/thread_pool_benchmark.cpp shares the tasks among the threads
-- that submit them.
use Prim.Native.Nat.mul
use native.Mathlib.Nat.{div-add-mod}
use cpp_mpmc_thread_pool.Base.{
  ℕ, zero, suc, ◌+◌, ◌-◌, ◌*◌, ◌/◌, ◌%◌, ◌≤◌, ◌≡◌, refl, sym, ap, ◌∙◌, inl, inr, zero-cases, ◌==◌,
  true, false, List, [], ◌∷◌, arith, length, if◌then◌else◌,
}
use cpp_mpmc_thread_pool.Base.Totals.{total}
use cpp_mpmc_thread_pool.Benchmark.{BenchmarkConfig}

module _ {Double : Type 0} (cfg : BenchmarkConfig Double) where
  -- `submit_threads`.
  abbrev pub submitters : ℕ
  submitters = if cfg.submit_threads == 0 then 4 else cfg.submit_threads

  -- The number of tasks of thread `t`.
  abbrev pub share : ℕ → ℕ
  share t =
      let tasks_per_thread = cfg.total_tasks / submitters in
      let rem = cfg.total_tasks % submitters in
      tasks_per_thread + (if t == submitters - 1 then rem else 0)

  -- The loop from thread `t` on, for so many threads.
  unfoldable pub shares_from : ℕ → ℕ → List ℕ
  shares_from t zero = []
  shares_from t (suc n) = share t ∷ shares_from (suc t) n

  unfoldable pub shares : List ℕ
  unfolding shares_from
  shares = shares_from 0 submitters

  some_submitter : 1 ≤ submitters
  some_submitter = ground arith

  shares_from-total :
      (n t : ℕ)
      → t + suc n ≡ submitters
      → total (λ s. s) (shares_from t (suc n))
        ≡ suc n * (cfg.total_tasks / submitters) + cfg.total_tasks % submitters
  unfolding shares_from
  shares_from-total zero t e =
      let last : (t == submitters - 1) ≡ true = ground (arith, e) in rw (last) (omega arith)
  shares_from-total (suc n) t e =
      let middle : (t == submitters - 1) ≡ false = ground (arith, e) in
      let rest = shares_from-total n (suc t) (omega (arith, e)) in
      rw (middle) (omega (arith, rest, mul.suc (suc n) (cfg.total_tasks / submitters)))

  shares_from-length : (n t : ℕ) → length (shares_from t n) ≡ n
  unfolding shares_from
  shares_from-length zero t = refl
  shares_from-length (suc n) t = omega (arith, shares_from-length n (suc t))

  all_shared : total (λ s. s) (shares_from 0 submitters) ≡ cfg.total_tasks
  all_shared = elim (zero-cases submitters) [
    | inl e ↦ absurd (omega (arith, e, some_submitter))
    | inr (m, e) ↦
        let q = cfg.total_tasks / submitters in
        ap (λ k. total (λ s. s) (shares_from 0 k)) e
        ∙ shares_from-total m 0 (omega (arith, e))
        ∙ ap (λ k. k * q + cfg.total_tasks % submitters) (sym e)
        ∙ div-add-mod cfg.total_tasks submitters
  ]

  -- The numbers of tasks that `RunTaskCountBenchmark` gives its submitting threads, one for each
  -- of them and four if none is asked for, add up to the total number of tasks.
  pub shares-total : (total (λ s. s) shares ≡ cfg.total_tasks) × (length shares ≡ submitters)
  unfolding shares
  shares-total = (all_shared, shares_from-length submitters 0)
