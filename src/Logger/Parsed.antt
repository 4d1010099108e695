-- ===== src/Logger/Parsed.antt =====
-- What `ParseConfig` of src/logger.cpp gives.
use Prim.Native.Char.{Char}
use Prim.Native.String.{String}
use text.Mathlib.Text.{◌==◌ as ◌=s=◌}
use mathlib.Core.Path.{subst}
use cpp_mpmc_thread_pool.Base.{
  ℕ, ◌≤◌, ◌≡◌, refl, ◌==◌, Bool, true, false, Option, none, some, List, [], ◌∷◌, max, if◌then◌else◌,
  arith, length,
}
use cpp_mpmc_thread_pool.Config.{◌>>=◌}
use cpp_mpmc_thread_pool.Logger.{
  SinkSpec, LoggerConfig, Json, Levels, fallback_sinks, parse_config, default_pattern,
}

-- A queue with room, a thread to write and somewhere to write to.
pub record Usable {Level : Type 0} (cfg : LoggerConfig Level) : Type 0 where
  pub queue_room : 1 ≤ cfg.queue_size
  pub worker_there : 1 ≤ cfg.workers
  pub sink_there : 1 ≤ length cfg.sinks

room : (n d : ℕ) → 1 ≤ d → 1 ≤ (if n == 0 then d else n)
room n d h = ground (arith, h)

-- The record that `ParseConfig` ends in.
usable :
    {Level : Type 0} (name : String) (level flush : Level) (pattern : String) (async : Bool)
    (queue workers : ℕ) (backtrace : Bool) (depth : ℕ) (sinks : List SinkSpec)
    → 1 ≤ length sinks
    → Usable (record {
      name = name;
      level = level;
      flush_level = flush;
      pattern = pattern;
      async = async;
      queue_size = if queue == 0 then 1024 else queue;
      workers = if workers == 0 then 1 else workers;
      enable_backtrace = backtrace;
      backtrace_depth = depth;
      sinks = sinks;
    })
usable name level flush pattern async queue workers backtrace depth sinks s = record {
  queue_room = room queue 1024 (omega arith);
  worker_there = room workers 1 (omega arith);
  sink_there = s;
}

some_length : {A : Type 0} (x : A) (xs : List A) → 1 ≤ length (x ∷ xs)
some_length x xs = omega arith

-- What holds of every result.
abbrev Each {ℓ κ} : {A : Type ℓ} → (A → Type κ) → Option A → Type κ
Each P none = Unit
Each P (some x) = P x

Each-some : {A : Type 0} (P : A → Type 0) (o : Option A) (x : A) → o ≡ some x → Each P o → P x
Each-some P o x e h = subst (λ p. Each P p) e h

Each-bind :
    {A B : Type 0} (P : B → Type 0) (o : Option A) (f : A → Option B)
    → ((x : A) → o ≡ some x → Each P (f x))
    → Each P (o >>= f)
Each-bind P none f h = tt
Each-bind P (some x) f h = h x refl

module _ (json : Json) where
  -- nlohmann::json's `value` and `find` look at the key they are asked for.
  pub record KeyLaws : Type 0 where
    pub text_skips :
        (k key : String) (x : json.Node) (fs : List (String × json.Node)) (d : String)
        → (k =s= key) ≡ false
        → json.value_text (json.object ((k, x) ∷ fs)) key d ≡ json.value_text (json.object fs) key d
    pub flag_skips :
        (k key : String) (x : json.Node) (fs : List (String × json.Node)) (d : Bool)
        → (k =s= key) ≡ false
        → json.value_flag (json.object ((k, x) ∷ fs)) key d ≡ json.value_flag (json.object fs) key d
    pub size_skips :
        (k key : String) (x : json.Node) (fs : List (String × json.Node)) (d : ℕ)
        → (k =s= key) ≡ false
        → json.value_size (json.object ((k, x) ∷ fs)) key d ≡ json.value_size (json.object fs) key d
    pub array_skips :
        (k key : String) (x : json.Node) (fs : List (String × json.Node))
        → (k =s= key) ≡ false
        → json.find_array (json.object ((k, x) ∷ fs)) key ≡ json.find_array (json.object fs) key

  module _ (tolower : Char → Char) where
    fallback_some :
        (specs sinks : List SinkSpec)
        → fallback_sinks json tolower specs ≡ some sinks
        → 1 ≤ length sinks
    unfolding fallback_sinks
    fallback_some [] sinks e =
        Each-some (λ ss. 1 ≤ length ss) (fallback_sinks json tolower []) sinks e
          (search (Each-bind, some_length) depth 8)
    fallback_some (s ∷ ss) sinks e = ground (arith, e)

    module _ (levels : Levels) (cores : ℕ) where
      -- A configuration that `ParseConfig` returns has room for a message in its queue at least, a
      -- thread that writes and a sink.
      pub parse_config-Usable :
          (jcfg : json.Node) (cfg : LoggerConfig levels.Level)
          → parse_config json tolower levels cores jcfg ≡ some cfg
          → Usable cfg
      unfolding parse_config
      parse_config-Usable jcfg cfg e =
          Each-some Usable (parse_config json tolower levels cores jcfg) cfg e
            (search (Each-bind, usable, fallback_some) depth 40)

      -- `ParseConfig` gives the same for an object with a key `logger`, whatever is under it, as
      -- for the object without it, so the settings that `DefaultConfig` puts there have no effect,
      -- with a JSON library whose `value` and `find` look at no other key than the one they are
      -- asked for.
      pub settings_ignored :
          KeyLaws
          → (settings : json.Node) (fs : List (String × json.Node))
          → parse_config json tolower levels cores (json.object (("logger", settings) ∷ fs))
            ≡ parse_config json tolower levels cores (json.object fs)
      unfolding parse_config
      settings_ignored laws x fs =
          rw
            (
              laws.text_skips "logger" "name" x fs "mpmc-threadpool" refl,
              laws.text_skips "logger" "pattern" x fs default_pattern refl,
              laws.text_skips "logger" "level" x fs "info" refl,
              laws.text_skips "logger" "flush_level" x fs "warn" refl,
              laws.flag_skips "logger" "async" x fs true refl,
              laws.size_skips "logger" "async_queue_size" x fs 8192 refl,
              laws.size_skips "logger" "async_workers" x fs (max 1 cores) refl,
              laws.flag_skips "logger" "enable_backtrace" x fs false refl,
              laws.size_skips "logger" "backtrace_depth" x fs 0 refl,
              laws.array_skips "logger" "sinks" x fs refl,
            )
            refl
