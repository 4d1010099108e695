-- ===== src/Benchmark/Main.antt =====
-- bench/main.cpp: the command line, and which configurations are run. `stoul` and `to_string` are
-- parameters; a run stands for what is printed and measured with its configuration.
use Prim.Native.String.{String, ◌++◌}
use text.Mathlib.Text.{◌==◌ as ◌=s=◌}
use cpp_mpmc_thread_pool.Base.{
  ℕ, suc, Bool, true, false, not, ◌||◌, Option, none, some, List, [], ◌∷◌, if◌then◌else◌,
}
use cpp_mpmc_thread_pool.Config.{◌>>=◌, value_or}
use cpp_mpmc_thread_pool.Benchmark.{
  BenchmarkConfig, BenchJson, BenchFiles, Thresholds, apply_override, load_from_file,
}

pub record Cli : Type 0 where
  pub config_path : String
  pub core_threads : Option ℕ
  pub duration_seconds : Option ℕ
  pub duration_mode : Option Bool
  pub total_tasks : Option ℕ

-- The path, and the arguments behind it.
unfoldable pub take_path : List String → String × List String
take_path [] = ("config/benchmark_config.json", [])
take_path (flag ∷ []) =
    if flag =s= "--config"
    then ("config/benchmark_config.json", [])
    else ("config/benchmark_config.json", flag ∷ [])
take_path (flag ∷ path ∷ rest) =
    if flag =s= "--config"
    then (path, rest)
    else ("config/benchmark_config.json", flag ∷ path ∷ rest)

-- `std::stoul` of the next argument, if there is one.
abbrev pub next_number : (String → Option ℕ) → List String → Option (Option ℕ × List String)
next_number stoul [] = some (none, [])
next_number stoul (s ∷ rest) = elim (stoul s) [ none ↦ none | some n ↦ some (some n, rest) ]

abbrev pub next_mode : List String → Option Bool × List String
next_mode [] = (none, [])
next_mode (s ∷ rest) = (some (not (s =s= "tasks")), rest)

-- The arguments are those behind the program's name; `none` is an exception of `stoul`.
unfoldable pub parse_cli : (String → Option ℕ) → List String → Option Cli
unfolding take_path
parse_cli stoul args =
    let (path, rest) = take_path args in
    do
      (core, rest) ← next_number stoul rest
      (seconds, rest) ← next_number stoul rest
      let (mode, rest) = next_mode rest
      (tasks, rest) ← next_number stoul rest
      some (record {
        config_path = path;
        core_threads = core;
        duration_seconds = seconds;
        duration_mode = mode;
        total_tasks = tasks;
      })

abbrev given {ℓ} : {A : Type ℓ} → Option A → Bool
given none = false
given (some x) = true

abbrev has_positional_override : Cli → Bool
has_positional_override cli =
    given cli.core_threads
    || given cli.duration_seconds
    || given cli.duration_mode
    || given cli.total_tasks

-- A run, with the name of its scenario and the level that is set for the logger.
pub record Run (Double : Type 0) : Type 0 where
  pub name : Option String
  pub level : String
  pub config : BenchmarkConfig Double

module _ {Double : Type 0} where
  abbrev pub level_for : BenchmarkConfig Double → String
  level_for cfg = if cfg.enable_logging then "warn" else "error"

  -- The positional arguments replace what the file says.
  unfoldable pub single_run : Cli → BenchmarkConfig Double → Run Double
  single_run cli base =
      let cfg = record base {
        core_threads = value_or cli.core_threads base.core_threads;
        duration_seconds = value_or cli.duration_seconds base.duration_seconds;
        use_duration_mode = value_or cli.duration_mode base.use_duration_mode;
        total_tasks = value_or cli.total_tasks base.total_tasks;
      } in
      record { name = none; level = level_for cfg; config = cfg }

  module _ (numbers : Thresholds Double) (json : BenchJson Double) (to_string : ℕ → String) where
    -- The name that a scenario has; empty where there is none, or one that is no string.
    unfoldable pub name_of : json.Node → String
    name_of sc = elim (json.at sc "name") [
      | none ↦ ""
      | some v ↦ elim (json.get_text v) [ none ↦ "" | some s ↦ s ]
    ]

    abbrev add_run : Run Double → List (Run Double) × Bool → List (Run Double) × Bool
    add_run r (rs, ok) = (r ∷ rs, ok)

    -- The scenarios from here on, with how many have had no name. An exception of `apply_override` ends
    -- the program behind the runs so far.
    unfoldable pub scenario_runs :
        BenchmarkConfig Double → ℕ → List json.Node → List (Run Double) × Bool
    unfolding name_of apply_override
    scenario_runs base idx [] = ([], true)
    scenario_runs base idx (sc ∷ scs) =
        let (cfg, ok) = apply_override numbers json base sc in
        let unnamed = name_of sc =s= "" in
        let name = if unnamed then "Scenario-" ++ to_string (suc idx) else name_of sc in
        let rest = scenario_runs base (if unnamed then suc idx else idx) scs in
        if ok
        then add_run (record { name = some name; level = level_for cfg; config = cfg }) rest
        else ([], false)

    -- `jroot["scenarios"]`, if it is an array; `none` also where the file cannot be read or parsed.
    unfoldable pub scenarios_of : Option json.Node → Option (List json.Node)
    scenarios_of none = none
    scenarios_of (some root) = do v ← json.at root "scenarios"; json.get_array v

    -- `main`, from the parsed command line on: the runs in order, and whether it ended without an
    -- exception.
    unfoldable pub main_runs : BenchFiles json.Node → Cli → List (Run Double) × Bool
    unfolding load_from_file scenario_runs single_run scenarios_of
    main_runs files cli =
        let base = load_from_file numbers json files cli.config_path in
        let root = (do text ← files.open_file cli.config_path; files.parse text) in
        if has_positional_override cli
        then (single_run cli base ∷ [], true)
        else elim (scenarios_of root) [
          | none ↦ (single_run cli base ∷ [], true)
          | some arr ↦ scenario_runs base 0 arr
        ]
