-- ===== src/Benchmark/Stops.antt =====
-- What `LoadFromFile` of bench/thread_pool_benchmark.cpp keeps when a conversion throws.
use Prim.Native.String.{String}
use cpp_mpmc_thread_pool.Base.{
  ◌≡◌, refl, sym, ap, ◌∙◌, inl, inr, Bool, true, false, none, some, List, [], ◌∷◌, ◌++◌,
  Option-cases,
}
use cpp_mpmc_thread_pool.Benchmark.{
  BenchmarkConfig, BenchJson, BenchFiles, Thresholds, default_config, Setter, pool_fields,
  read_fields, read_benchmark, apply_override, load_from_file,
}

module _ {Double : Type 0} (numbers : Thresholds Double) (json : BenchJson Double) where
  module _ (key : String) (set : Setter numbers json) (rest : List (String × Setter numbers json))
      (p : json.Node) (c : BenchmarkConfig Double) where
    read_missing :
        json.at p key ≡ none
        → read_fields numbers json ((key, set) ∷ rest) p c ≡ read_fields numbers json rest p c
    unfolding read_fields
    read_missing e = rw (e, read_fields) refl

    read_value :
        (v : json.Node) (d : BenchmarkConfig Double)
        → json.at p key ≡ some v
        → set v c ≡ some d
        → read_fields numbers json ((key, set) ∷ rest) p c ≡ read_fields numbers json rest p d
    unfolding read_fields
    read_value v d e h = rw (e, read_fields, h) refl

    read_throws :
        (v : json.Node)
        → json.at p key ≡ some v
        → set v c ≡ none
        → read_fields numbers json ((key, set) ∷ rest) p c ≡ (c, false)
    unfolding read_fields
    read_throws v e h = rw (e, read_fields, h) refl

  thrown_done :
      (c d : BenchmarkConfig Double) → Path (BenchmarkConfig Double × Bool) (c, false) (d, true) → ⊥
  thrown_done c d e =
      let b : false ≡ true = ap {A = BenchmarkConfig Double × Bool} (λ x. x.1) e in cc

  -- Where reading the first keys has ended, the rest is read.
  read_fields-append :
      (fs gs : List (String × Setter numbers json)) (p : json.Node) (c d : BenchmarkConfig Double)
      → read_fields numbers json fs p c ≡ (d, true)
      → read_fields numbers json (fs ++ gs) p c ≡ read_fields numbers json gs p d
  unfolding read_fields
  read_fields-append [] gs p c d e = ap (λ x. read_fields numbers json gs p x.0) e
  read_fields-append ((key, set) ∷ fs) gs p c d e = elim (Option-cases (json.at p key)) [
    | inl h ↦
        read_missing key set (fs ++ gs) p c h
        ∙ read_fields-append fs gs p c d (sym (read_missing key set fs p c h) ∙ e)
    | inr (v, h) ↦ elim (Option-cases (set v c)) [
      | inl n ↦ absurd (thrown_done c d (sym (read_throws key set fs p c v h n) ∙ e))
      | inr (b, n) ↦
          read_value key set (fs ++ gs) p c v b h n
          ∙ read_fields-append fs gs p b d (sym (read_value key set fs p c v b h n) ∙ e)
    ]
  ]

  override_stops :
      (j p : json.Node) (c d : BenchmarkConfig Double)
      → json.at j "thread_pool" ≡ some p
      → read_fields numbers json (pool_fields numbers json) p c ≡ (d, false)
      → (apply_override numbers json c j).0 ≡ d
  unfolding apply_override read_benchmark
  override_stops j p c d ej e =
      let opened : (apply_override numbers json c j).0
          ≡ (read_benchmark numbers json j
              (read_fields numbers json (pool_fields numbers json) p c)).0 =
        rw (ej, apply_override) refl in
      opened ∙ ap (λ x. (read_benchmark numbers json j x).0) e

  -- When a key under `thread_pool` of a benchmark's file has a value that cannot be converted,
  -- `LoadFromFile` returns the configuration that the keys read before it have made of the
  -- defaults: these keys keep the values of the file, and the keys behind it and under `benchmark`
  -- have no effect.
  pub load_stops :
      (files : BenchFiles json.Node) (path : String) (text : files.Text) (j p v : json.Node)
      (fs rest : List (String × Setter numbers json)) (key : String) (set : Setter numbers json)
      (d : BenchmarkConfig Double)
      → files.open_file path ≡ some text
      → files.parse text ≡ some j
      → json.at j "thread_pool" ≡ some p
      → pool_fields numbers json ≡ fs ++ ((key, set) ∷ rest)
      → read_fields numbers json fs p (default_config numbers) ≡ (d, true)
      → json.at p key ≡ some v
      → set v d ≡ none
      → load_from_file numbers json files path ≡ d
  unfolding load_from_file
  load_stops files path text j p v fs rest key set d eo ep ej ef er ek es =
      let pool : read_fields numbers json (pool_fields numbers json) p (default_config numbers)
          ≡ (d, false) =
        ap (λ fs. read_fields numbers json fs p (default_config numbers)) ef
        ∙ read_fields-append fs ((key, set) ∷ rest) p (default_config numbers) d er
        ∙ read_throws key set rest p d v ek es in
      rw (eo, load_from_file, ep) (override_stops j p (default_config numbers) d ej pool)
