-- ===== src/Benchmark.antt =====
-- bench/thread_pool_benchmark.cpp and .hpp: the configuration of a benchmark, from its file to the
-- configuration of the pool. The JSON library, files and the type `double` are parameters.
pub mod Main
pub mod Split
pub mod Stops
mod Tests
use Prim.Native.String.{String}
use text.Mathlib.Text.{◌==◌ as ◌=s=◌}
use cpp_mpmc_thread_pool.Base.{
  ℕ, Bool, true, false, ◌||◌, Option, none, some, List, [], ◌∷◌, max, ltb, if◌then◌else◌,
}
use cpp_mpmc_thread_pool.Base.Words.{pos, to_ptrdiff}
use cpp_mpmc_thread_pool.Pool.{QueueFullPolicy, block, discard, overwrite}
use cpp_mpmc_thread_pool.Config.{ThreadPoolConfig, ◌>>=◌}

-- An unknown name means `Block`.
unfoldable pub parse_policy : String → QueueFullPolicy
parse_policy s =
    if (s =s= "BLOCK") || (s =s= "Block")
    then block
    else if (s =s= "DISCARD") || (s =s= "Discard")
    then discard
    else if (s =s= "OVERWRITE") || (s =s= "Overwrite")
    then overwrite
    else block

pub record BenchmarkConfig (Double : Type 0) : Type 0 where
  pub core_threads : ℕ
  pub max_threads : ℕ
  pub max_queue_size : ℕ
  pub keep_alive_time_ms : ℕ
  pub queue_full_policy : String
  pub enable_dynamic_threads : Bool
  pub load_check_interval_ms : ℕ
  pub scale_up_threshold : Double
  pub scale_down_threshold : Double
  pub pending_hi : ℕ
  pub pending_low : ℕ
  pub debounce_hits : ℕ
  pub cooldown_ms : ℕ
  pub total_tasks : ℕ
  pub duration_seconds : ℕ
  pub warmup_seconds : ℕ
  pub use_duration_mode : Bool
  pub enable_logging : Bool
  pub enable_console_output : Bool
  pub enable_real_time_monitoring : Bool
  pub monitoring_interval_ms : ℕ
  pub task_work_us : ℕ
  pub task_sleep_us : ℕ
  pub submit_threads : ℕ

-- What the code uses of the JSON library: `contains` with `[]`, which has nothing in a value that is no
-- object, the conversions of `get`, which throw on a value of another kind, and `is_array` with the
-- elements.
pub record BenchJson (Double : Type 0) : Type 1 where
  pub Node : Type 0
  pub at : Node → String → Option Node
  pub get_size : Node → Option ℕ
  pub get_bool : Node → Option Bool
  pub get_double : Node → Option Double
  pub get_text : Node → Option String
  pub get_array : Node → Option (List Node)

-- The numbers 0.8, 0.2, 1.0 and 0.0 of the source.
pub record Thresholds (Double : Type 0) : Type 0 where
  pub up : Double
  pub down : Double
  pub never_up : Double
  pub never_down : Double

-- What opens a file and what parses its text, which may fail.
pub record BenchFiles (Node : Type 0) : Type 1 where
  pub Text : Type 0
  pub open_file : String → Option Text
  pub parse : Text → Option Node

module _ {Double : Type 0} (numbers : Thresholds Double) where
  abbrev Config : Type 0
  Config = BenchmarkConfig Double

  -- `BenchmarkConfig{}`.
  abbrev pub default_config : Config
  default_config = record {
    core_threads = 8;
    max_threads = 16;
    max_queue_size = 100000;
    keep_alive_time_ms = 60000;
    queue_full_policy = "BLOCK";
    enable_dynamic_threads = true;
    load_check_interval_ms = 20;
    scale_up_threshold = numbers.up;
    scale_down_threshold = numbers.down;
    pending_hi = 0;
    pending_low = 0;
    debounce_hits = 3;
    cooldown_ms = 500;
    total_tasks = 1000000;
    duration_seconds = 30;
    warmup_seconds = 5;
    use_duration_mode = true;
    enable_logging = true;
    enable_console_output = true;
    enable_real_time_monitoring = true;
    monitoring_interval_ms = 1000;
    task_work_us = 0;
    task_sleep_us = 0;
    submit_threads = 4;
  }

  -- The defaults of `ThreadPoolConfig` stand where the configuration has a 0.
  unfoldable pub to_pool_config : Config → ThreadPoolConfig Double
  unfolding parse_policy
  to_pool_config cfg =
      let core = if ltb 0 cfg.core_threads then cfg.core_threads else 1 in
      record {
        queue_cap = cfg.max_queue_size;
        core_threads = core;
        max_threads = max core cfg.max_threads;
        load_check_interval = to_ptrdiff cfg.load_check_interval_ms;
        keep_alive = to_ptrdiff cfg.keep_alive_time_ms;
        scale_up_threshold =
            if cfg.enable_dynamic_threads then cfg.scale_up_threshold else numbers.never_up;
        scale_down_threshold =
            if cfg.enable_dynamic_threads then cfg.scale_down_threshold else numbers.never_down;
        pending_hi = if ltb 0 cfg.pending_hi then cfg.pending_hi else 64;
        pending_low = if ltb 0 cfg.pending_low then cfg.pending_low else 8;
        debounce_hits = cfg.debounce_hits;
        cooldown = to_ptrdiff cfg.cooldown_ms;
        queue_policy = parse_policy cfg.queue_full_policy;
      }

  module _ (json : BenchJson Double) where
    -- An assignment from a value, which may throw.
    abbrev pub Setter : Type 0
    Setter = json.Node → Config → Option Config

    abbrev size_field : (ℕ → Config → Config) → Setter
    size_field set v c = do n ← json.get_size v; some (set n c)

    abbrev bool_field : (Bool → Config → Config) → Setter
    bool_field set v c = do b ← json.get_bool v; some (set b c)

    abbrev double_field : (Double → Config → Config) → Setter
    double_field set v c = do x ← json.get_double v; some (set x c)

    abbrev text_field : (String → Config → Config) → Setter
    text_field set v c = do s ← json.get_text v; some (set s c)

    -- The keys under `thread_pool`, in the order they are read.
    unfoldable pub pool_fields : List (String × Setter)
    pool_fields =
        ("core_threads", size_field (λ n c. record c { core_threads = n }))
        ∷ ("max_threads", size_field (λ n c. record c { max_threads = n }))
        ∷ ("max_queue_size", size_field (λ n c. record c { max_queue_size = n }))
        ∷ ("keep_alive_time_ms", size_field (λ n c. record c { keep_alive_time_ms = n }))
        ∷ ("queue_full_policy", text_field (λ s c. record c { queue_full_policy = s }))
        ∷ ("enable_dynamic_threads", bool_field (λ b c. record c { enable_dynamic_threads = b }))
        ∷ ("load_check_interval_ms", size_field (λ n c. record c { load_check_interval_ms = n }))
        ∷ ("scale_up_threshold", double_field (λ x c. record c { scale_up_threshold = x }))
        ∷ ("scale_down_threshold", double_field (λ x c. record c { scale_down_threshold = x }))
        ∷ ("pending_hi", size_field (λ n c. record c { pending_hi = n }))
        ∷ ("pending_low", size_field (λ n c. record c { pending_low = n }))
        ∷ ("debounce_hits", size_field (λ n c. record c { debounce_hits = n }))
        ∷ ("cooldown_ms", size_field (λ n c. record c { cooldown_ms = n }))
        ∷ []

    -- The keys under `benchmark`, in the order they are read.
    unfoldable pub benchmark_fields : List (String × Setter)
    benchmark_fields =
        ("total_tasks", size_field (λ n c. record c { total_tasks = n }))
        ∷ ("duration_seconds", size_field (λ n c. record c { duration_seconds = n }))
        ∷ ("warmup_seconds", size_field (λ n c. record c { warmup_seconds = n }))
        ∷ ("use_duration_mode", bool_field (λ b c. record c { use_duration_mode = b }))
        ∷ ("enable_logging", bool_field (λ b c. record c { enable_logging = b }))
        ∷ ("enable_console_output", bool_field (λ b c. record c { enable_console_output = b }))
        ∷ (
          "enable_real_time_monitoring",
          bool_field (λ b c. record c { enable_real_time_monitoring = b }),
        )
        ∷ ("monitoring_interval_ms", size_field (λ n c. record c { monitoring_interval_ms = n }))
        ∷ ("task_work_us", size_field (λ n c. record c { task_work_us = n }))
        ∷ ("task_sleep_us", size_field (λ n c. record c { task_sleep_us = n }))
        ∷ ("submit_threads", size_field (λ n c. record c { submit_threads = n }))
        ∷ []

    -- The configuration that is reached, and `false` where a conversion has thrown.
    unfoldable pub read_fields : List (String × Setter) → json.Node → Config → Config × Bool
    read_fields [] p c = (c, true)
    read_fields ((key, set) ∷ rest) p c = elim (json.at p key) [
      | none ↦ read_fields rest p c
      | some v ↦ elim (set v c) [ none ↦ (c, false) | some d ↦ read_fields rest p d ]
    ]

    unfoldable pub read_benchmark : json.Node → Config × Bool → Config × Bool
    unfolding read_fields benchmark_fields
    read_benchmark j (c, false) = (c, false)
    read_benchmark j (c, true) = elim (json.at j "benchmark") [
      | none ↦ (c, true)
      | some b ↦ read_fields benchmark_fields b c
    ]

    -- The keys that a file or a scenario has replace what the configuration has.
    unfoldable pub apply_override : Config → json.Node → Config × Bool
    unfolding read_fields pool_fields read_benchmark
    apply_override c j = elim (json.at j "thread_pool") [
      | none ↦ read_benchmark j (c, true)
      | some p ↦ read_benchmark j (read_fields pool_fields p c)
    ]

    unfoldable pub load_from_file : BenchFiles json.Node → String → Config
    unfolding apply_override
    load_from_file files path = elim (files.open_file path) [
      | none ↦ default_config
      | some text ↦ elim (files.parse text) [
        | none ↦ default_config
        | some j ↦ (apply_override default_config j).0
      ]
    ]
