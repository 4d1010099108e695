-- ===== src/Logger/Build.antt =====
-- src/logger.cpp, the construction layer: sinks and the logger from their configuration. What it calls
-- of spdlog is a parameter. The folders that are made for a file are left out: their errors are
-- ignored, and it is the sink that opens the file.
use Prim.Native.String.{String}
use text.Mathlib.Text.{◌==◌ as ◌=s=◌}
use cpp_mpmc_thread_pool.Base.{
  ℕ, ◌==◌, Bool, not, ◌||◌, Option, none, some, List, [], ◌∷◌, min, if◌then◌else◌,
}
use cpp_mpmc_thread_pool.Base.Words.{ℤ, pos, negsuc}
use cpp_mpmc_thread_pool.Logger.{SinkSpec, default_sink, LoggerConfig, Levels, safe_parse_level}

-- `drop` and `register_logger` act on spdlog's registry of names. What opens a file or starts threads
-- may throw.
pub record Spdlog (levels : Levels) : Type 1 where
  pub Sink : Type 0
  pub Logger : Type 0
  pub ThreadPool : Type 0
  pub Registry : Type 0
  pub stdout_color_sink : Sink
  pub stderr_color_sink : Sink
  pub rotating_file_sink : String → ℕ → ℕ → Bool → Option Sink
  pub daily_file_sink : String → ℕ → ℕ → Bool → Option Sink
  pub basic_file_sink : String → Bool → Option Sink
  pub sink_level : Sink → levels.Level
  pub sink_set_level : levels.Level → Sink → Sink
  pub sink_set_pattern : String → Sink → Sink
  pub thread_pool : ℕ → ℕ → Option ThreadPool
  pub async_logger : String → List Sink → ThreadPool → Logger
  pub logger : String → List Sink → Logger
  pub name : Logger → String
  pub level : Logger → levels.Level
  pub set_level : levels.Level → Logger → Logger
  pub set_pattern : String → Logger → Logger
  pub flush_on : levels.Level → Logger → Logger
  pub enable_backtrace : ℕ → Logger → Logger
  pub set_error_handler : Logger → Logger
  pub drop : String → Registry → Registry
  pub register_logger : String → Registry → Option Registry

-- `std::clamp(x, 0, top)`.
abbrev pub clamp : ℤ → ℕ → ℕ
clamp (pos n) top = min n top
clamp (negsuc n) top = 0

abbrev pub path_of : SinkSpec → String
path_of spec = if spec.file_path =s= "" then "logs/pool.log" else spec.file_path

module _ (levels : Levels) (spdlog : Spdlog levels) where
  -- `g_logger`, `g_thread_pool` and spdlog's registry.
  pub record Globals : Type 0 where
    pub g_logger : Option spdlog.Logger
    pub g_thread_pool : Option spdlog.ThreadPool
    pub registry : spdlog.Registry

  unfoldable pub build_console_sink : SinkSpec → spdlog.Sink
  build_console_sink spec =
      if (spec.kind =s= "stderr") || (spec.kind =s= "stderr_color")
      then spdlog.stderr_color_sink
      else spdlog.stdout_color_sink

  abbrev pub build_rotate_sink : SinkSpec → Option spdlog.Sink
  build_rotate_sink spec =
      spdlog.rotating_file_sink (path_of spec) spec.max_size spec.max_files spec.rotate_on_open

  abbrev pub build_daily_sink : SinkSpec → Option spdlog.Sink
  build_daily_sink spec =
      spdlog.daily_file_sink (path_of spec) (clamp spec.rotation_hour 23)
        (clamp spec.rotation_minute 59) spec.truncate

  abbrev pub build_basic_file_sink : SinkSpec → Option spdlog.Sink
  build_basic_file_sink spec = spdlog.basic_file_sink (path_of spec) spec.truncate

  abbrev is_console : SinkSpec → Bool
  is_console spec =
      (spec.kind =s= "console")
      || (spec.kind =s= "stdout")
      || (spec.kind =s= "stdout_color")
      || (spec.kind =s= "stderr")
      || (spec.kind =s= "stderr_color")

  abbrev made {ℓ} : {A : Type ℓ} → Option A → Option (Option A)
  made none = none
  made (some s) = some (some s)

  -- `some none` is the null pointer.
  unfoldable pub build_sink : SinkSpec → Option (Option spdlog.Sink)
  unfolding build_console_sink
  build_sink spec =
      if not spec.enabled
      then some none
      else if is_console spec
      then some (some (build_console_sink spec))
      else if (spec.kind =s= "rotating") || (spec.kind =s= "rotating_file")
      then made (build_rotate_sink spec)
      else if (spec.kind =s= "daily") || (spec.kind =s= "daily_file")
      then made (build_daily_sink spec)
      else if (spec.kind =s= "file") || (spec.kind =s= "basic_file")
      then made (build_basic_file_sink spec)
      else some none

  unfoldable pub apply_sink_overrides : SinkSpec → spdlog.Sink → spdlog.Sink
  unfolding safe_parse_level
  apply_sink_overrides spec sink =
      let sink = if spec.pattern =s= "" then sink else spdlog.sink_set_pattern spec.pattern sink in
      if spec.level =s= ""
      then sink
      else spdlog.sink_set_level (safe_parse_level levels spec.level (spdlog.sink_level sink)) sink

  -- One round of the loop over the specifications, with what the rounds behind it give.
  unfoldable pub add_sink :
      SinkSpec → Option (Option spdlog.Sink) → Option (List spdlog.Sink) → Option (List spdlog.Sink)
  unfolding apply_sink_overrides
  add_sink spec none rest = none
  add_sink spec (some built) none = none
  add_sink spec (some none) (some sinks) = some sinks
  add_sink spec (some (some sink)) (some sinks) = some (apply_sink_overrides spec sink ∷ sinks)

  unfoldable pub build_sinks : List SinkSpec → Option (List spdlog.Sink)
  unfolding build_sink add_sink
  build_sinks [] = some []
  build_sinks (spec ∷ specs) = add_sink spec (build_sink spec) (build_sinks specs)

  unfoldable pub or_console : List spdlog.Sink → List spdlog.Sink
  unfolding build_console_sink
  or_console [] = build_console_sink default_sink ∷ []
  or_console (s ∷ ss) = s ∷ ss

  -- The logger and the new `g_thread_pool`.
  unfoldable pub start_logger :
      LoggerConfig levels.Level
      → List spdlog.Sink
      → Option (spdlog.Logger × Option spdlog.ThreadPool)
  start_logger cfg sinks =
      if cfg.async
      then elim (spdlog.thread_pool cfg.queue_size cfg.workers) [
        | none ↦ none
        | some pool ↦ some (spdlog.async_logger cfg.name sinks pool, some pool)
      ]
      else some (spdlog.logger cfg.name sinks, none)

  unfoldable pub configure : LoggerConfig levels.Level → spdlog.Logger → spdlog.Logger
  configure cfg l =
      let l = spdlog.set_level cfg.level l in
      let l = spdlog.set_pattern cfg.pattern l in
      let l = spdlog.flush_on cfg.flush_level l in
      if cfg.enable_backtrace
      then spdlog.enable_backtrace (if cfg.backtrace_depth == 0 then 32 else cfg.backtrace_depth) l
      else l

  -- `RegisterLogger`, with what was reached when it throws.
  unfoldable pub register : spdlog.Logger → Globals → Globals × Option spdlog.Logger
  register l g =
      let dropped = spdlog.drop (spdlog.name l) g.registry in
      elim (spdlog.register_logger (spdlog.name l) dropped) [
        | none ↦ (record g { registry = dropped }, none)
        | some r ↦ (record g { registry = r }, some (spdlog.set_error_handler l))
      ]

  unfoldable pub finish_logger :
      LoggerConfig levels.Level
      → Globals
      → Option (spdlog.Logger × Option spdlog.ThreadPool)
      → Globals × Option spdlog.Logger
  unfolding configure register
  finish_logger cfg g none = (g, none)
  finish_logger cfg g (some (l, pool)) =
      register (configure cfg l) (record g { g_thread_pool = pool })

  unfoldable pub with_sinks :
      LoggerConfig levels.Level
      → Globals
      → Option (List spdlog.Sink)
      → Globals × Option spdlog.Logger
  unfolding or_console start_logger finish_logger
  with_sinks cfg g none = (g, none)
  with_sinks cfg g (some sinks) = finish_logger cfg g (start_logger cfg (or_console sinks))

  unfoldable pub build_logger : LoggerConfig levels.Level → Globals → Globals × Option spdlog.Logger
  unfolding build_sinks with_sinks
  build_logger cfg g = with_sinks cfg g (build_sinks cfg.sinks)
