-- ===== src/Config/RoundTrip.antt =====
-- `Normalize` and its sanity rules, and `ToJson` against `LoadJson`, of src/config.cpp.
use Prim.Native.String.{String}
use text.Mathlib.Text.{◌==◌}
use cpp_mpmc_thread_pool.Base.{
  ℕ, ◌≤◌, ◌<◌, ◌^◌, ◌⊎◌, inl, inr, ◌≡◌, refl, sym, ap, ◌∙◌, Option, none, some, List, [], ◌∷◌,
  arith, if◌then◌else◌, max, min, Option-cases, lt→ltb,
}
use cpp_mpmc_thread_pool.Base.Words.{ℤ, pos, negsuc, to_ptrdiff}
use cpp_mpmc_thread_pool.Pool.{QueueFullPolicy, block, discard, overwrite}
use cpp_mpmc_thread_pool.Config.{
  ThreadPoolConfig, RawConfig, Value, natural, integer, double, chars, Json, parse_policy,
  policy_text, policy_or, adjusted, normalize, field, parse_raw, load_json, to_json, ◌>>=◌,
}

-- The adjustments at the end of `Normalize`.
pub record Sane {Double : Type 0} (cfg : ThreadPoolConfig Double) : Type 0 where
  pub some_thread : 1 ≤ cfg.core_threads
  pub room_to_grow : cfg.core_threads ≤ cfg.max_threads
  pub ordered : cfg.pending_low ≤ cfg.pending_hi
  pub some_hit : 1 ≤ cfg.debounce_hits

-- A value of type `int`.
pub data InInt : ℤ → Type 0 where
  above : (n : ℕ) → n < 2 ^ 31 → InInt (pos n)
  below : (n : ℕ) → n < 2 ^ 31 → InInt (negsuc n)

-- The fields hold values of their types that `RawConfig` can hold as well.
pub record Storable {Double : Type 0} (cfg : ThreadPoolConfig Double) : Type 0 where
  pub queue_cap : cfg.queue_cap < 2 ^ 64
  pub max_threads : cfg.max_threads < 2 ^ 64
  pub load_check_interval : InInt cfg.load_check_interval
  pub keep_alive : InInt cfg.keep_alive
  pub pending_hi : cfg.pending_hi < 2 ^ 64
  pub debounce_hits : cfg.debounce_hits < 2 ^ 64
  pub cooldown_ms : ℕ
  pub cooldown : cfg.cooldown ≡ pos cooldown_ms
  pub cooldown_small : cooldown_ms < 2 ^ 63

-- The documented behaviour of the library that the code relies on: an assignment to a key is found
-- under that key, the other keys keep their values, and a value is read as the type it was written.
pub record JsonLaws {Double : Type 0} (json : Json Double) : Type 0 where
  pub find-empty : (k : String) → json.find json.empty k ≡ none
  pub find-put :
      (j : json.Object) (k : String) (v : Value Double) (k' : String)
      → json.find (json.put j k v) k' ≡ (if k == k' then some v else json.find j k')
  pub get_size-natural : (n : ℕ) → n < 2 ^ 64 → json.get_size (natural n) ≡ some n
  pub get_size-integer : (n : ℕ) → n < 2 ^ 63 → json.get_size (integer (pos n)) ≡ some n
  pub get_int-integer : (z : ℤ) → InInt z → json.get_int (integer z) ≡ some z
  pub get_double-double : (d : Double) → json.get_double (double d) ≡ some d
  pub get_text-chars : (s : String) → json.get_text (chars s) ≡ some s

parse_policy-policy_text :
    (policy : QueueFullPolicy) → parse_policy (policy_text policy) ≡ some policy
unfolding parse_policy
parse_policy-policy_text block = refl
parse_policy-policy_text discard = refl
parse_policy-policy_text overwrite = refl

module _ {Double : Type 0} (up down : Double) where
  -- `Normalize` throws if the policy is unknown, and otherwise gives a configuration with a core
  -- thread at least, no fewer maximal than core threads, a lower pending threshold that is at most
  -- the upper one, and a debounce count of at least 1.
  pub normalize-Sane :
      (raw : RawConfig Double)
      → ((policy_or raw.queue_policy ≡ none) × (normalize up down raw ≡ none))
        ⊎ ((cfg : ThreadPoolConfig Double) × (normalize up down raw ≡ some cfg) × Sane cfg)
  unfolding normalize
  normalize-Sane raw = elim (Option-cases (policy_or raw.queue_policy)) [
    | inl e ↦ inl (e, ground (arith, e))
    | inr (policy, e) ↦ inr (
      adjusted up down raw policy,
      ground (arith, e),
      record {
        some_thread = omega arith;
        room_to_grow = omega arith;
        ordered = omega arith;
        some_hit = omega arith;
      },
    )
  ]

module _ {Double : Type 0} (json : Json Double) (laws : JsonLaws json) where
  -- The object that assignments make, first one first, and what a key holds then.
  abbrev put_all : List (String × Value Double) → json.Object → json.Object
  put_all [] j = j
  put_all ((k, v) ∷ es) j = put_all es (json.put j k v)

  abbrev find_in :
      List (String × Value Double) → String → Option (Value Double) → Option (Value Double)
  find_in [] k found = found
  find_in ((k, v) ∷ es) k' found = find_in es k' (if k == k' then some v else found)

  find-put_all :
      (es : List (String × Value Double)) (j : json.Object) (k : String)
      → json.find (put_all es j) k ≡ find_in es k (json.find j k)
  find-put_all [] j k = refl
  find-put_all ((k, v) ∷ es) j k' =
      find-put_all es (json.put j k v) k' ∙ ap (find_in es k') (laws.find-put j k v k')

  abbrev entries : ThreadPoolConfig Double → List (String × Value Double)
  entries cfg =
      ("queue_cap", natural cfg.queue_cap)
      ∷ ("core_threads", natural cfg.core_threads)
      ∷ ("max_threads", natural cfg.max_threads)
      ∷ ("load_check_interval_ms", integer cfg.load_check_interval)
      ∷ ("keep_alive_ms", integer cfg.keep_alive)
      ∷ ("scale_up_threshold", double cfg.scale_up_threshold)
      ∷ ("scale_down_threshold", double cfg.scale_down_threshold)
      ∷ ("pending_hi", natural cfg.pending_hi)
      ∷ ("pending_low", natural cfg.pending_low)
      ∷ ("debounce_hits", natural cfg.debounce_hits)
      ∷ ("cooldown_ms", integer cfg.cooldown)
      ∷ ("queue_policy", chars (policy_text cfg.queue_policy))
      ∷ []

  find-to_json :
      (cfg : ThreadPoolConfig Double) (k : String)
      → json.find (to_json json cfg) k ≡ find_in (entries cfg) k none
  unfolding to_json
  find-to_json cfg k =
      find-put_all (entries cfg) json.empty k ∙ ap (find_in (entries cfg) k) (laws.find-empty k)

  field-to_json :
      {A : Type 0} (cfg : ThreadPoolConfig Double) (get : Value Double → Option A) (k : String)
      {v : Value Double} {x : A}
      → find_in (entries cfg) k none ≡ some v
      → get v ≡ some x
      → field json get (to_json json cfg) k ≡ some (some x)
  field-to_json cfg get k e h = ground (arith, find-to_json cfg k ∙ e, h)

  bind-some :
      {A B : Type 0} {o : Option A} {x : A} (f : A → Option B) {r : Option B}
      → o ≡ some x
      → f x ≡ r
      → (o >>= f) ≡ r
  bind-some f e h = ground (arith, e, h)

  -- What `ParseRaw` reads of a written configuration.
  abbrev raw_of : (cfg : ThreadPoolConfig Double) → ℕ → RawConfig Double
  raw_of cfg cool = record {
    queue_cap = some cfg.queue_cap;
    core_threads = some cfg.core_threads;
    max_threads = some cfg.max_threads;
    load_check_interval_ms = some cfg.load_check_interval;
    keep_alive_ms = some cfg.keep_alive;
    scale_up_threshold = some cfg.scale_up_threshold;
    scale_down_threshold = some cfg.scale_down_threshold;
    pending_hi = some cfg.pending_hi;
    pending_low = some cfg.pending_low;
    debounce_hits = some cfg.debounce_hits;
    cooldown_ms = some cool;
    queue_policy = some (policy_text cfg.queue_policy);
  }

  parse_raw-to_json :
      (cfg : ThreadPoolConfig Double) (sane : Sane cfg) (fits : Storable cfg)
      → parse_raw json (to_json json cfg) ≡ some (raw_of cfg fits.cooldown_ms)
  unfolding parse_raw
  parse_raw-to_json cfg sane fits =
      bind-some _
        (field-to_json cfg json.get_size "queue_cap" refl (laws.get_size-natural _ fits.queue_cap))
        (bind-some _
          (field-to_json cfg json.get_size "core_threads" refl
            (laws.get_size-natural _ (omega (arith, sane.room_to_grow, fits.max_threads))))
          (bind-some _
            (field-to_json cfg json.get_size "max_threads" refl
              (laws.get_size-natural _ fits.max_threads))
            (bind-some _
              (field-to_json cfg json.get_int "load_check_interval_ms" refl
                (laws.get_int-integer _ fits.load_check_interval))
              (bind-some _
                (field-to_json cfg json.get_int "keep_alive_ms" refl
                  (laws.get_int-integer _ fits.keep_alive))
                (bind-some _
                  (field-to_json cfg json.get_double "scale_up_threshold" refl
                    (laws.get_double-double _))
                  (bind-some _
                    (field-to_json cfg json.get_double "scale_down_threshold" refl
                      (laws.get_double-double _))
                    (bind-some _
                      (field-to_json cfg json.get_size "pending_hi" refl
                        (laws.get_size-natural _ fits.pending_hi))
                      (bind-some _
                        (field-to_json cfg json.get_size "pending_low" refl
                          (laws.get_size-natural _ (omega (arith, sane.ordered, fits.pending_hi))))
                        (bind-some _
                          (field-to_json cfg json.get_size "debounce_hits" refl
                            (laws.get_size-natural _ fits.debounce_hits))
                          (bind-some _
                            (field-to_json cfg json.get_size "cooldown_ms" refl (
                              ap (λ z. json.get_size (integer z)) fits.cooldown
                              ∙ laws.get_size-integer fits.cooldown_ms fits.cooldown_small))
                            (bind-some _
                              (field-to_json cfg json.get_text "queue_policy" refl
                                (laws.get_text-chars _))
                              (refl))))))))))))

  -- A sane configuration is adjusted to itself.
  adjusted-raw_of :
      (up down : Double) (cfg : ThreadPoolConfig Double) (sane : Sane cfg) (fits : Storable cfg)
      → adjusted up down (raw_of cfg fits.cooldown_ms) cfg.queue_policy ≡ cfg
  adjusted-raw_of up down cfg sane fits =
      let core : max 1 cfg.core_threads ≡ cfg.core_threads = omega (arith, sane.some_thread) in
      let most : max (max 1 cfg.core_threads) cfg.max_threads ≡ cfg.max_threads =
        omega (arith, sane.some_thread, sane.room_to_grow) in
      let low : min cfg.pending_hi cfg.pending_low ≡ cfg.pending_low =
        omega (arith, sane.ordered) in
      let hits : max 1 cfg.debounce_hits ≡ cfg.debounce_hits = omega (arith, sane.some_hit) in
      let cool : to_ptrdiff fits.cooldown_ms ≡ cfg.cooldown =
        rw (lt→ltb fits.cooldown_ms (2 ^ 63) fits.cooldown_small) (sym fits.cooldown) in
      λ i. record cfg {
        core_threads = core i;
        max_threads = most i;
        pending_low = low i;
        debounce_hits = hits i;
        cooldown = cool i;
      }

  -- With a JSON library that keeps what is assigned to a key and reads a value as the type it was
  -- written, what `ToJson` writes of a configuration is loaded back as the same configuration,
  -- whatever the default thresholds, if the configuration satisfies the sanity rules, its sizes
  -- are below 2^64, its interval and keep-alive time are `int` values and its cooldown is from 0
  -- to below 2^63.
  pub load_json-to_json :
      (up down : Double) (cfg : ThreadPoolConfig Double)
      → Sane cfg
      → Storable cfg
      → load_json json up down (to_json json cfg) ≡ some cfg
  unfolding load_json normalize
  load_json-to_json up down cfg sane fits = bind-some _ (parse_raw-to_json cfg sane fits) (
      bind-some _ (parse_policy-policy_text cfg.queue_policy)
        (ap some (adjusted-raw_of up down cfg sane fits)))
