-- ===== src/Logger/Tests.antt =====
-- Runs of src/logger.cpp with small libraries, at which the theorems apply.
use Prim.Native.Char.{Char}
use Prim.Native.String.{String}
use text.Mathlib.Text.{◌==◌ as ◌=s=◌}
use mathlib.Core.List.{map}
use cpp_mpmc_thread_pool.Base.{
  ℕ, ◌≤◌, ◌≡◌, refl, sym, ap, ◌∙◌, Bool, true, false, Option, none, some, List, [], ◌∷◌, get_elem?,
  if◌then◌else◌,
}
use cpp_mpmc_thread_pool.Logger.{
  SinkSpec, default_sink, LoggerConfig, Json, Levels, safe_parse_level, parse_sink, parse_sinks,
  fallback_sinks, parse_config, default_config,
}
use cpp_mpmc_thread_pool.Logger.Text.{to_lower}
use cpp_mpmc_thread_pool.Logger.Build.{
  Spdlog, Globals, build_logger, build_sinks, build_sink, add_sink, with_sinks, or_console,
  start_logger, finish_logger, configure, register, apply_sink_overrides, build_console_sink,
}
use cpp_mpmc_thread_pool.Logger.Global.{
  Files, logger_is_ready, initialize_logger, init_from_file, init_default, init_from_json,
  or_default, or_terminate, store_logger, load_config_from_file,
}
use cpp_mpmc_thread_pool.Logger.Parsed.{Usable, KeyLaws, parse_config-Usable, settings_ignored}
use cpp_mpmc_thread_pool.Logger.Built.{blank, repaint, PatternLaws, patterns_unused}
use cpp_mpmc_thread_pool.Logger.Once.{returned, opening, run}
use cpp_mpmc_thread_pool.Logger.Once.Single.{built_once}
use cpp_mpmc_thread_pool.Logger.Ready.{
  LogCall, init_json_call, set_call, level_call, log_calls, initialized_stays,
}

-- A JSON value whose objects and arrays are chains.
data Tree : Type 0 where
  leaf_text : String → Tree
  leaf_flag : Bool → Tree
  leaf_number : ℕ → Tree
  nothing : Tree
  field_of : String → Tree → Tree → Tree
  element_of : Tree → Tree → Tree

abbrev lookup : Tree → String → Option Tree
lookup (field_of k x rest) key = if k =s= key then some x else lookup rest key
lookup _ key = none

abbrev text_or : Option Tree → String → Option String
text_or none d = some d
text_or (some (leaf_text s)) d = some s
text_or (some _) d = none

abbrev flag_or : Option Tree → Bool → Option Bool
flag_or none d = some d
flag_or (some (leaf_flag b)) d = some b
flag_or (some _) d = none

abbrev number_or : Option Tree → ℕ → Option ℕ
number_or none d = some d
number_or (some (leaf_number n)) d = some n
number_or (some _) d = none

abbrev elements_of : Tree → List Tree
elements_of (element_of x rest) = x ∷ elements_of rest
elements_of _ = []

abbrev array_at : Option Tree → Option (List Tree)
array_at (some (element_of x rest)) = some (x ∷ elements_of rest)
array_at _ = none

abbrev chain : List Tree → Tree
chain [] = nothing
chain (x ∷ xs) = element_of x (chain xs)

abbrev fields : List (String × Tree) → Tree
fields [] = nothing
fields ((k, x) ∷ fs) = field_of k x (fields fs)

abbrev small_json : Json
small_json = record {
  Node = Tree;
  value_text = λ j k d. text_or (lookup j k) d;
  value_flag = λ j k d. flag_or (lookup j k) d;
  value_size = λ j k d. number_or (lookup j k) d;
  value_int = λ j k d. some d;
  find_array = λ j k. array_at (lookup j k);
  text = leaf_text;
  flag = leaf_flag;
  number = leaf_number;
  array = chain;
  object = fields;
}

small_json-KeyLaws : KeyLaws small_json
small_json-KeyLaws = record {
  text_skips = λ k key x fs d e. rw (e) refl;
  flag_skips = λ k key x fs d e. rw (e) refl;
  size_skips = λ k key x fs d e. rw (e) refl;
  array_skips = λ k key x fs e. rw (e) refl;
}

abbrev names : Levels
names = record {
  Level = String;
  info = "info";
  warn = "warning";
  off = "off";
  from_str = λ s. some s;
}

abbrev keep_case : Char → Char
keep_case c = c

-- A queue of no room and no thread.
abbrev empty_queue : Tree
empty_queue = fields (("async_queue_size", leaf_number 0) ∷ ("async_workers", leaf_number 0) ∷ [])

abbrev console : SinkSpec
console = default_sink

abbrev rotating : SinkSpec
rotating = record default_sink { kind = "rotating_file"; file_path = "logs/pool.log" }

abbrev made_usable : LoggerConfig String
made_usable = record {
  name = "mpmc-threadpool";
  level = "info";
  flush_level = "warn";
  pattern = "[%Y-%m-%d %H:%M:%S.%e][%^%l%$][%t] %v";
  async = true;
  queue_size = 1024;
  workers = 1;
  enable_backtrace = false;
  backtrace_depth = 0;
  sinks = console ∷ rotating ∷ [];
}

parsed : parse_config small_json keep_case names 4 empty_queue ≡ some made_usable
unfolding parse_config parse_sinks fallback_sinks parse_sink safe_parse_level to_lower
parsed = refl

parse_config-Usable_example : Usable made_usable
parse_config-Usable_example =
    parse_config-Usable small_json keep_case names 4 empty_queue made_usable parsed

-- The settings ask for a synchronous logger.
abbrev synchronous : Tree
synchronous = fields (("async", leaf_flag false) ∷ [])

settings_ignored_example :
    parse_config small_json keep_case names 4 (fields (("logger", synchronous) ∷ []))
    ≡ parse_config small_json keep_case names 4 (fields [])
settings_ignored_example =
    settings_ignored small_json keep_case names 4 small_json-KeyLaws synchronous []

-- Sinks that keep their pattern and level, and loggers that keep their sinks.
record PlainSink : Type 0 where
  sink_pattern : String
  sink_level : String

record PlainLogger : Type 0 where
  plain_name : String
  plain_sinks : List PlainSink
  plain_level : String

abbrev paint : String → PlainSink → PlainSink
paint p s = record s { sink_pattern = p }

abbrev paint_all : String → List PlainSink → List PlainSink
paint_all p [] = []
paint_all p (s ∷ ss) = paint p s ∷ paint_all p ss

abbrev plain : PlainSink
plain = record { sink_pattern = "%v"; sink_level = "trace" }

abbrev small_spdlog : Spdlog names
small_spdlog = record {
  Sink = PlainSink;
  Logger = PlainLogger;
  ThreadPool = ℕ;
  Registry = List String;
  stdout_color_sink = plain;
  stderr_color_sink = plain;
  rotating_file_sink = λ path size files rotate. some plain;
  daily_file_sink = λ path hour minute truncate. some plain;
  basic_file_sink = λ path truncate. some plain;
  sink_level = λ s. s.sink_level;
  sink_set_level = λ v s. record s { sink_level = v };
  sink_set_pattern = paint;
  thread_pool = λ size threads. some threads;
  async_logger = λ n ss pool. record { plain_name = n; plain_sinks = ss; plain_level = "info" };
  logger = λ n ss. record { plain_name = n; plain_sinks = ss; plain_level = "info" };
  name = λ l. l.plain_name;
  level = λ l. l.plain_level;
  set_level = λ v l. record l { plain_level = v };
  set_pattern = λ p l. record l { plain_sinks = paint_all p l.plain_sinks };
  flush_on = λ v l. l;
  enable_backtrace = λ n l. l;
  set_error_handler = λ l. l;
  drop = λ n r. r;
  register_logger = λ n r. some (n ∷ r);
}

painted : (p : String) (ss : List PlainSink) → paint_all p ss ≡ repaint names small_spdlog p ss
painted p [] = refl
painted p (s ∷ ss) = ap (λ ts. paint p s ∷ ts) (painted p ss)

same_paint :
    (p : String) (ss ts : List PlainSink)
    → repaint names small_spdlog p ss ≡ repaint names small_spdlog p ts
    → paint_all p ss ≡ paint_all p ts
same_paint p ss ts e = painted p ss ∙ e ∙ sym (painted p ts)

abbrev with_sinks_of : String → List PlainSink → PlainLogger
with_sinks_of n ss = record { plain_name = n; plain_sinks = ss; plain_level = "info" }

small_spdlog-PatternLaws : PatternLaws names small_spdlog
small_spdlog-PatternLaws = record {
  last_counts = λ p q s. refl;
  level_apart = λ p v s. refl;
  level_kept = λ p s. refl;
  logger_level_apart = λ p v l. refl;
  each_sink = λ p n ss ts e. ap (with_sinks_of n) (same_paint p ss ts e);
  each_sink_async = λ p n ss ts pool e. ap (with_sinks_of n) (same_paint p ss ts e);
}

abbrev nothing_yet : Globals names small_spdlog
nothing_yet = record { g_logger = none; g_thread_pool = none; registry = [] }

-- A console with a pattern of its own.
abbrev with_pattern : LoggerConfig String
with_pattern = record made_usable { sinks = record default_sink { pattern = "%l: %v" } ∷ [] }

patterns_unused_example :
    build_logger names small_spdlog
      (record with_pattern { sinks = map blank with_pattern.sinks })
      nothing_yet
    ≡ build_logger names small_spdlog with_pattern nothing_yet
patterns_unused_example =
    patterns_unused names small_spdlog small_spdlog-PatternLaws with_pattern nothing_yet

built_once_example :
    let r = run (opening 2) (
      (0, false)
      ∷ (1, false)
      ∷ (0, false)
      ∷ (1, false)
      ∷ (0, false)
      ∷ (0, false)
      ∷ (0, false)
      ∷ (1, false)
      ∷ (1, false)
      ∷ []) in
    (r.built ≤ 1) × ((k l : ℕ) → get_elem? r.callers k ≡ some (returned l) → r.global ≡ some l)
built_once_example = built_once 2 (
    (0, false)
    ∷ (1, false)
    ∷ (0, false)
    ∷ (1, false)
    ∷ (0, false)
    ∷ (0, false)
    ∷ (0, false)
    ∷ (1, false)
    ∷ (1, false)
    ∷ [])

-- No file can be opened.
abbrev no_files : Files Tree
no_files = record { Text = String; open_file = λ path. none; parse = λ text. none }

abbrev made_default : PlainLogger
made_default = record {
  plain_name = "mpmc-threadpool";
  plain_sinks =
      paint "[%Y-%m-%d %H:%M:%S.%e][%^%l%$][%t] %v" plain
      ∷ paint "[%Y-%m-%d %H:%M:%S.%e][%^%l%$][%t] %v" plain
      ∷ [];
  plain_level = "info";
}

abbrev behind_initialize : Globals names small_spdlog
behind_initialize = record {
  g_logger = some made_default;
  g_thread_pool = some 4;
  registry = "mpmc-threadpool" ∷ [];
}

initialized :
    initialize_logger small_json no_files keep_case names 4 small_spdlog "config/logger_config.json"
      nothing_yet
    ≡ some behind_initialize
unfolding initialize_logger logger_is_ready init_from_file load_config_from_file or_default
    or_terminate init_default init_from_json store_logger parse_config parse_sinks parse_sink
    fallback_sinks safe_parse_level to_lower default_config build_logger build_sinks build_sink
    add_sink with_sinks or_console start_logger finish_logger configure register
    apply_sink_overrides build_console_sink
initialized = refl

abbrev later_calls : List (LogCall Tree PlainLogger)
later_calls = level_call "warn" ∷ set_call none ∷ init_json_call (leaf_flag true) ∷ []

initialized_stays_example :
    (i : Globals names small_spdlog) × (log_calls small_json no_files keep_case names 4 small_spdlog
        later_calls behind_initialize
      ≡ some i)
    × (logger_is_ready small_json no_files keep_case names 4 small_spdlog i ≡ true)
initialized_stays_example =
    initialized_stays small_json no_files keep_case names 4 small_spdlog "config/logger_config.json"
      nothing_yet behind_initialize later_calls initialized
