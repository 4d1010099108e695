-- ===== src/Logger/Global.antt =====
-- src/logger.cpp, the global logger: what each function does to it, one call at a time. Files and the
-- JSON parser are parameters; a function that throws gives `none` for its logger.
use Prim.Native.Char.{Char}
use Prim.Native.String.{String}
use cpp_mpmc_thread_pool.Base.{ℕ, Bool, true, false, Option, none, some, if◌then◌else◌}
use cpp_mpmc_thread_pool.Config.{◌>>=◌}
use cpp_mpmc_thread_pool.Logger.{Json, Levels, safe_parse_level, parse_config, default_config}
use cpp_mpmc_thread_pool.Logger.Text.{to_lower}
use cpp_mpmc_thread_pool.Logger.Build.{Spdlog, Globals, build_logger, register}

abbrev pub is_some {ℓ} : {A : Type ℓ} → Option A → Bool
is_some none = false
is_some (some x) = true

-- What opens a file and what parses its text, which may fail.
pub record Files (Node : Type 0) : Type 1 where
  pub Text : Type 0
  pub open_file : String → Option Text
  pub parse : Text → Option Node

module _ (json : Json) (files : Files json.Node) (tolower : Char → Char) (levels : Levels)
    (cores : ℕ) (spdlog : Spdlog levels) where
  abbrev State : Type 0
  State = Globals levels spdlog

  unfoldable pub load_config_from_file : String → Option json.Node
  load_config_from_file path = do text ← files.open_file path; files.parse text

  unfoldable pub load_config : json.Node
  unfolding load_config_from_file
  load_config = elim (load_config_from_file "config/logger_config.json") [
    | none ↦ default_config json
    | some j ↦ j
  ]

  -- `StoreLogger` behind what makes the logger.
  unfoldable pub store_logger : State × Option spdlog.Logger → State × Option spdlog.Logger
  store_logger (g, none) = (g, none)
  store_logger (g, some l) = (record g { g_logger = some l }, some l)

  unfoldable pub init_from_json : json.Node → State → State × Option spdlog.Logger
  unfolding store_logger
  init_from_json jcfg g = elim (parse_config json tolower levels cores jcfg) [
    | none ↦ (g, none)
    | some cfg ↦ store_logger (build_logger levels spdlog cfg g)
  ]

  unfoldable pub init_default : State → State × Option spdlog.Logger
  unfolding init_from_json
  init_default = init_from_json (default_config json)

  unfoldable pub init_from_file : String → State → State × Option spdlog.Logger
  unfolding init_from_json load_config_from_file
  init_from_file path g = elim (load_config_from_file path) [
    | none ↦ (g, none)
    | some jcfg ↦ init_from_json jcfg g
  ]

  -- `EnsureInitialized`, which is `LoadLogger`.
  unfoldable pub ensure_initialized : State → State × Option spdlog.Logger
  unfolding init_from_json load_config
  ensure_initialized g = elim g.g_logger [
    | some l ↦ (g, some l)
    | none ↦ init_from_json load_config g
  ]

  -- `false` where it throws.
  unfoldable pub set_logger : Option spdlog.Logger → State → State × Bool
  unfolding store_logger
  set_logger none g = (g, true)
  set_logger (some l) g =
      let (g, stored) = store_logger (register levels spdlog l g) in (g, is_some stored)

  unfoldable pub logger_is_ready : State → Bool
  logger_is_ready g = is_some g.g_logger

  unfoldable pub set_level : String → State → State × Bool
  unfolding ensure_initialized safe_parse_level
  set_level level g =
      let (g, loaded) = ensure_initialized g in
      elim loaded [
        | none ↦ (g, false)
        | some l ↦ (
          record g {
            g_logger = some (
                spdlog.set_level (safe_parse_level levels (to_lower tolower level) (spdlog.level l))
                  l);
          },
          true,
        )
      ]

  unfoldable pub current_level : State → levels.Level
  current_level g = elim g.g_logger [ none ↦ levels.off | some l ↦ spdlog.level l ]

  -- The second part of `InitializeLogger`: `none` is `std::terminate`, as the function is `noexcept`.
  unfoldable pub or_terminate : State × Option spdlog.Logger → Option State
  or_terminate (g, some l) = some g
  or_terminate (g, none) = none

  -- Behind the first part, with what it made.
  unfoldable pub or_default : State × Option spdlog.Logger → Option State
  unfolding or_terminate init_default
  or_default (g, some l) = some g
  or_default (g, none) = or_terminate (init_default g)

  unfoldable pub initialize_logger : String → State → Option State
  unfolding logger_is_ready init_from_file or_default
  initialize_logger path g =
      if logger_is_ready g then some g else or_default (init_from_file path g)
