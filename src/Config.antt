-- ===== src/Config.antt =====
-- src/config.cpp, include/thread_pool/config.hpp and the configuration in
-- include/thread_pool/fwd.hpp: from a JSON object to the configuration of a pool and back. The JSON
-- library and the type `double` are parameters. `none` is an exception, with the message left out.
pub mod RoundTrip
pub mod Loader
pub mod Loads
mod Tests
use Prim.Native.String.{String}
use text.Mathlib.Text.{◌==◌}
use cpp_mpmc_thread_pool.Base.{
  ℕ, ◌≤◌, ◌<◌, ◌^◌, ◌≡◌, Bool, true, false, Option, none, some, if◌then◌else◌, max, min,
}
use cpp_mpmc_thread_pool.Base.Words.{ℤ, pos, negsuc, size_mod, to_ptrdiff}
use cpp_mpmc_thread_pool.Pool.{QueueFullPolicy, block, discard, overwrite}

infixl 5 ◌>>=◌
abbrev pub ◌>>=◌ {ℓ κ} : {A : Type ℓ} {B : Type κ} → Option A → (A → Option B) → Option B
none >>= f = none
some x >>= f = f x

-- `ThreadPoolConfig`. Times are in milliseconds.
pub record ThreadPoolConfig (Double : Type 0) : Type 0 where
  pub queue_cap : ℕ
  pub core_threads : ℕ
  pub max_threads : ℕ
  pub load_check_interval : ℤ
  pub keep_alive : ℤ
  pub scale_up_threshold : Double
  pub scale_down_threshold : Double
  pub pending_hi : ℕ
  pub pending_low : ℕ
  pub debounce_hits : ℕ
  pub cooldown : ℤ
  pub queue_policy : QueueFullPolicy

-- `RawConfig`.
pub record RawConfig (Double : Type 0) : Type 0 where
  pub queue_cap : Option ℕ
  pub core_threads : Option ℕ
  pub max_threads : Option ℕ
  pub load_check_interval_ms : Option ℤ
  pub keep_alive_ms : Option ℤ
  pub scale_up_threshold : Option Double
  pub scale_down_threshold : Option Double
  pub pending_hi : Option ℕ
  pub pending_low : Option ℕ
  pub debounce_hits : Option ℕ
  pub cooldown_ms : Option ℕ
  pub queue_policy : Option String

-- The values that a configuration is written with.
pub data Value (Double : Type 0) : Type 0 where
  natural : ℕ → Value Double
  integer : ℤ → Value Double
  double : Double → Value Double
  chars : String → Value Double

-- What the code uses of the JSON library: `json()`, the assignment to `j[key]`, `contains` with `at`,
-- and the conversions of `get`, which throw (`none`) on a value of another kind.
pub record Json (Double : Type 0) : Type 1 where
  pub Object : Type 0
  pub empty : Object
  pub put : Object → String → Value Double → Object
  pub find : Object → String → Option (Value Double)
  pub get_size : Value Double → Option ℕ
  pub get_int : Value Double → Option ℤ
  pub get_double : Value Double → Option Double
  pub get_text : Value Double → Option String

unfoldable pub parse_policy : String → Option QueueFullPolicy
parse_policy policy =
    if policy == "Block"
    then some block
    else if policy == "Discard"
    then some discard
    else if policy == "Overwrite"
    then some overwrite
    else none

-- The strings that `ToJson` writes.
abbrev pub policy_text : QueueFullPolicy → String
policy_text block = "Block"
policy_text discard = "Discard"
policy_text overwrite = "Overwrite"

-- `if (raw.field.has_value()) { cfg.field = raw.field.value(); }`
abbrev pub value_or {ℓ} : {A : Type ℓ} → Option A → A → A
value_or none x = x
value_or (some y) x = y

-- The policy of a raw configuration, where the default is `Block`.
abbrev pub policy_or : Option String → Option QueueFullPolicy
policy_or none = some block
policy_or (some policy) = parse_policy policy

-- The times are `int` values, but for the cooldown, a `size_t` that becomes a signed count.
abbrev pub cooldown_or : Option ℕ → ℤ
cooldown_or none = pos 500
cooldown_or (some n) = to_ptrdiff n

module _ {Double : Type 0} where
  -- The fields behind the defaults and the sanity adjustments. The defaults of the two thresholds,
  -- 0.75 and 0.25, are arguments.
  abbrev pub adjusted :
      (up down : Double) → RawConfig Double → QueueFullPolicy → ThreadPoolConfig Double
  adjusted up down raw policy =
      let core = max 1 (value_or raw.core_threads 4) in
      let hi = value_or raw.pending_hi 64 in
      record {
        queue_cap = value_or raw.queue_cap 1024;
        core_threads = core;
        max_threads = max core (value_or raw.max_threads 8);
        load_check_interval = value_or raw.load_check_interval_ms (pos 100);
        keep_alive = value_or raw.keep_alive_ms (pos 5000);
        scale_up_threshold = value_or raw.scale_up_threshold up;
        scale_down_threshold = value_or raw.scale_down_threshold down;
        pending_hi = hi;
        pending_low = min hi (value_or raw.pending_low 8);
        debounce_hits = max 1 (value_or raw.debounce_hits 3);
        cooldown = cooldown_or raw.cooldown_ms;
        queue_policy = policy;
      }

  unfoldable pub normalize :
      (up down : Double) → RawConfig Double → Option (ThreadPoolConfig Double)
  unfolding parse_policy
  normalize up down raw = do policy ← policy_or raw.queue_policy; some (adjusted up down raw policy)

  module _ (json : Json Double) where
    -- `if (jcfg.contains(key)) { raw.field = jcfg.at(key).get<T>(); }`
    abbrev pub field {ℓ} :
        {A : Type ℓ} → (Value Double → Option A) → json.Object → String → Option (Option A)
    field get jcfg key = elim (json.find jcfg key) [
      | none ↦ some none
      | some v ↦ elim (get v) [ none ↦ none | some x ↦ some (some x) ]
    ]

    unfoldable pub parse_raw : json.Object → Option (RawConfig Double)
    parse_raw jcfg = do
      cap ← field json.get_size jcfg "queue_cap"
      core ← field json.get_size jcfg "core_threads"
      most ← field json.get_size jcfg "max_threads"
      interval ← field json.get_int jcfg "load_check_interval_ms"
      alive ← field json.get_int jcfg "keep_alive_ms"
      up ← field json.get_double jcfg "scale_up_threshold"
      down ← field json.get_double jcfg "scale_down_threshold"
      hi ← field json.get_size jcfg "pending_hi"
      low ← field json.get_size jcfg "pending_low"
      hits ← field json.get_size jcfg "debounce_hits"
      cool ← field json.get_size jcfg "cooldown_ms"
      policy ← field json.get_text jcfg "queue_policy"
      some (record {
        queue_cap = cap;
        core_threads = core;
        max_threads = most;
        load_check_interval_ms = interval;
        keep_alive_ms = alive;
        scale_up_threshold = up;
        scale_down_threshold = down;
        pending_hi = hi;
        pending_low = low;
        debounce_hits = hits;
        cooldown_ms = cool;
        queue_policy = policy;
      })

    -- `LoadJson`: the configuration that is kept, or `none` for `false`.
    unfoldable pub load_json : (up down : Double) → json.Object → Option (ThreadPoolConfig Double)
    unfolding parse_raw normalize
    load_json up down jcfg = do raw ← parse_raw jcfg; normalize up down raw

    unfoldable pub to_json : ThreadPoolConfig Double → json.Object
    to_json cfg =
        let j = json.put json.empty "queue_cap" (natural cfg.queue_cap) in
        let j = json.put j "core_threads" (natural cfg.core_threads) in
        let j = json.put j "max_threads" (natural cfg.max_threads) in
        let j = json.put j "load_check_interval_ms" (integer cfg.load_check_interval) in
        let j = json.put j "keep_alive_ms" (integer cfg.keep_alive) in
        let j = json.put j "scale_up_threshold" (double cfg.scale_up_threshold) in
        let j = json.put j "scale_down_threshold" (double cfg.scale_down_threshold) in
        let j = json.put j "pending_hi" (natural cfg.pending_hi) in
        let j = json.put j "pending_low" (natural cfg.pending_low) in
        let j = json.put j "debounce_hits" (natural cfg.debounce_hits) in
        let j = json.put j "cooldown_ms" (integer cfg.cooldown) in
        json.put j "queue_policy" (chars (policy_text cfg.queue_policy))
