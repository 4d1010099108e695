-- ===== src/Logger.antt =====
-- src/logger.cpp, the input layer: from a JSON value to the configuration of the logger. The JSON
-- library, the names of spdlog's levels, `tolower` and the number of cores are parameters. `none` is an
-- exception.
pub mod Text
pub mod Build
pub mod Global
pub mod Parsed
pub mod Built
pub mod Once
pub mod Ready
mod Tests
use Prim.Native.Char.{Char}
use Prim.Native.String.{String}
use cpp_mpmc_thread_pool.Base.{
  ℕ, ◌==◌, Bool, true, false, Option, none, some, List, [], ◌∷◌, max, if◌then◌else◌,
}
use cpp_mpmc_thread_pool.Base.Words.{ℤ, pos}
use cpp_mpmc_thread_pool.Config.{◌>>=◌}
use cpp_mpmc_thread_pool.Logger.Text.{to_lower}

-- `SinkSpec`.
pub record SinkSpec : Type 0 where
  pub kind : String
  pub enabled : Bool
  pub pattern : String
  pub level : String
  pub file_path : String
  pub max_size : ℕ
  pub max_files : ℕ
  pub rotate_on_open : Bool
  pub rotation_hour : ℤ
  pub rotation_minute : ℤ
  pub truncate : Bool

-- `SinkSpec{}`.
abbrev pub default_sink : SinkSpec
default_sink = record {
  kind = "console";
  enabled = true;
  pattern = "";
  level = "";
  file_path = "";
  max_size = 10485760;
  max_files = 5;
  rotate_on_open = false;
  rotation_hour = pos 0;
  rotation_minute = pos 0;
  truncate = false;
}

-- `LoggerConfig`, with spdlog's type for a level.
pub record LoggerConfig (Level : Type 0) : Type 0 where
  pub name : String
  pub level : Level
  pub flush_level : Level
  pub pattern : String
  pub async : Bool
  pub queue_size : ℕ
  pub workers : ℕ
  pub enable_backtrace : Bool
  pub backtrace_depth : ℕ
  pub sinks : List SinkSpec

-- What the code uses of the JSON library: the member function `value` with a default, by the type of
-- the default; `find` with `is_array`; and what makes values.
pub record Json : Type 1 where
  pub Node : Type 0
  pub value_text : Node → String → String → Option String
  pub value_flag : Node → String → Bool → Option Bool
  pub value_size : Node → String → ℕ → Option ℕ
  pub value_int : Node → String → ℤ → Option ℤ
  pub find_array : Node → String → Option (List Node)
  pub text : String → Node
  pub flag : Bool → Node
  pub number : ℕ → Node
  pub array : List Node → Node
  pub object : List (String × Node) → Node

-- The levels that the code names, and spdlog's `from_str`, which may throw.
pub record Levels : Type 1 where
  pub Level : Type 0
  pub info : Level
  pub warn : Level
  pub off : Level
  pub from_str : String → Option Level

abbrev pub default_pattern : String
default_pattern = "[%Y-%m-%d %H:%M:%S.%e][%^%l%$][%t] %v"

abbrev pub elements {ℓ} : {A : Type ℓ} → Option (List A) → List A
elements none = []
elements (some xs) = xs

module _ (levels : Levels) where
  unfoldable pub safe_parse_level : String → levels.Level → levels.Level
  safe_parse_level name fallback = elim (levels.from_str name) [ none ↦ fallback | some l ↦ l ]

  -- `detail::ParseLevel`.
  unfoldable pub parse_level : String → levels.Level
  unfolding safe_parse_level
  parse_level name = safe_parse_level name levels.info

module _ (json : Json) where
  -- `DefaultConfig`, in two parts.
  abbrev pub default_settings : json.Node
  default_settings = json.object (
      ("name", json.text "mpmc-threadpool")
      ∷ ("level", json.text "info")
      ∷ ("flush_level", json.text "warn")
      ∷ ("pattern", json.text default_pattern)
      ∷ ("async", json.flag true)
      ∷ ("async_queue_size", json.number 8192)
      ∷ ("async_workers", json.number 1)
      ∷ ("enable_backtrace", json.flag false)
      ∷ ("backtrace_depth", json.number 0)
      ∷ [])

  abbrev pub default_sinks : json.Node
  default_sinks = json.array (
      json.object (
        ("type", json.text "console")
        ∷ ("enabled", json.flag true)
        ∷ ("pattern", json.text "")
        ∷ ("level", json.text "")
        ∷ [])
      ∷ json.object (
          ("type", json.text "rotating_file")
          ∷ ("file_path", json.text "logs/pool.log")
          ∷ ("max_size", json.number 10485760)
          ∷ ("max_files", json.number 5)
          ∷ ("rotate_on_open", json.flag false)
          ∷ ("pattern", json.text "")
          ∷ ("level", json.text "")
          ∷ [])
      ∷ [])

  unfoldable pub default_config : json.Node
  default_config = json.object (("logger", default_settings) ∷ ("sinks", default_sinks) ∷ [])

  module _ (tolower : Char → Char) where
    unfoldable pub parse_sink : json.Node → Option SinkSpec
    parse_sink jcfg = do
      kind ← json.value_text jcfg "type" "console"
      enabled ← json.value_flag jcfg "enabled" true
      pattern ← json.value_text jcfg "pattern" ""
      level ← json.value_text jcfg "level" ""
      path ← json.value_text jcfg "file_path" ""
      size ← json.value_size jcfg "max_size" default_sink.max_size
      files ← json.value_size jcfg "max_files" default_sink.max_files
      rotate ← json.value_flag jcfg "rotate_on_open" default_sink.rotate_on_open
      hour ← json.value_int jcfg "rotation_hour" default_sink.rotation_hour
      minute ← json.value_int jcfg "rotation_minute" default_sink.rotation_minute
      truncate ← json.value_flag jcfg "truncate" default_sink.truncate
      some (record {
        kind = to_lower tolower kind;
        enabled = enabled;
        pattern = pattern;
        level = to_lower tolower level;
        file_path = path;
        max_size = size;
        max_files = files;
        rotate_on_open = rotate;
        rotation_hour = hour;
        rotation_minute = minute;
        truncate = truncate;
      })

    unfoldable pub parse_sinks : List json.Node → Option (List SinkSpec)
    parse_sinks [] = some []
    parse_sinks (j ∷ js) = do spec ← parse_sink j; specs ← parse_sinks js; some (spec ∷ specs)

    -- `if (cfg.sinks.empty())`.
    unfoldable pub fallback_sinks : List SinkSpec → Option (List SinkSpec)
    fallback_sinks [] = do
      console ← parse_sink (json.object (("type", json.text "console") ∷ []))
      rotating ← parse_sink (
          json.object (
            ("type", json.text "rotating_file")
            ∷ ("file_path", json.text "logs/pool.log")
            ∷ ("max_size", json.number 10485760)
            ∷ ("max_files", json.number 5)
            ∷ []))
      some (console ∷ rotating ∷ [])
    fallback_sinks (s ∷ ss) = some (s ∷ ss)

    -- `cores` is `hardware_concurrency()`.
    module _ (levels : Levels) (cores : ℕ) where
      unfoldable pub parse_config : json.Node → Option (LoggerConfig levels.Level)
      unfolding safe_parse_level
      parse_config jcfg = do
        name ← json.value_text jcfg "name" "mpmc-threadpool"
        pattern ← json.value_text jcfg "pattern" default_pattern
        level ← json.value_text jcfg "level" "info"
        flush ← json.value_text jcfg "flush_level" "warn"
        async ← json.value_flag jcfg "async" true
        queue ← json.value_size jcfg "async_queue_size" 8192
        workers ← json.value_size jcfg "async_workers" (max 1 cores)
        backtrace ← json.value_flag jcfg "enable_backtrace" false
        depth ← json.value_size jcfg "backtrace_depth" 0
        specs ← parse_sinks (elements (json.find_array jcfg "sinks"))
        sinks ← fallback_sinks specs
        some (record {
          name = name;
          level = safe_parse_level levels (to_lower tolower level) levels.info;
          flush_level = safe_parse_level levels (to_lower tolower flush) levels.warn;
          pattern = pattern;
          async = async;
          queue_size = if queue == 0 then 1024 else queue;
          workers = if workers == 0 then 1 else workers;
          enable_backtrace = backtrace;
          backtrace_depth = depth;
          sinks = sinks;
        })
