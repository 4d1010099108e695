-- ===== src/Benchmark/Tests.antt =====
-- Runs of bench/, at which the theorems apply.
use Prim.Native.String.{String}
use text.Mathlib.Text.{◌==◌ as ◌=s=◌}
use cpp_mpmc_thread_pool.Base.{
  ℕ, ◌≡◌, refl, Bool, true, false, Option, none, some, List, [], ◌∷◌, length, if◌then◌else◌,
}
use cpp_mpmc_thread_pool.Base.Totals.{total}
use cpp_mpmc_thread_pool.Benchmark.{
  BenchmarkConfig, BenchJson, BenchFiles, Thresholds, default_config, Setter, size_field,
  pool_fields, read_fields, load_from_file, apply_override, read_benchmark, benchmark_fields,
}
use cpp_mpmc_thread_pool.Benchmark.Main.{
  Cli, parse_cli, take_path, main_runs, scenario_runs, scenarios_of, single_run, name_of,
}
use cpp_mpmc_thread_pool.Benchmark.Split.{shares, shares_from, shares-total}
use cpp_mpmc_thread_pool.Benchmark.Stops.{load_stops}

data Item : Type 0 where
  size_item : ℕ → Item
  bool_item : Bool → Item
  text_item : String → Item
  last_item : Item
  key_item : String → Item → Item → Item
  element_item : Item → Item → Item

abbrev item_at : Item → String → Option Item
item_at (key_item k x rest) key = if k =s= key then some x else item_at rest key
item_at _ key = none

abbrev size_of : Item → Option ℕ
size_of (size_item n) = some n
size_of _ = none

abbrev bool_of : Item → Option Bool
bool_of (bool_item b) = some b
bool_of _ = none

abbrev text_of : Item → Option String
text_of (text_item s) = some s
text_of _ = none

abbrev chained : Item → List Item
chained (element_item x rest) = x ∷ chained rest
chained _ = []

abbrev list_of : Item → Option (List Item)
list_of (element_item x rest) = some (x ∷ chained rest)
list_of _ = none

abbrev items : BenchJson ℕ
items = record {
  Node = Item;
  at = item_at;
  get_size = size_of;
  get_bool = bool_of;
  get_double = size_of;
  get_text = text_of;
  get_array = list_of;
}

abbrev tenths : Thresholds ℕ
tenths = record { up = 8; down = 2; never_up = 10; never_down = 0 }

-- The second key has a value of the wrong type.
abbrev mistyped : Item
mistyped =
    key_item "core_threads" (size_item 2) (key_item "max_threads" (text_item "many") last_item)

abbrev mistyped_file : Item
mistyped_file =
    key_item "thread_pool" mistyped
      (key_item "benchmark" (key_item "total_tasks" (size_item 7) last_item) last_item)

abbrev one_file : Item → BenchFiles Item
one_file j = record { Text = String; open_file = λ path. some path; parse = λ text. some j }

abbrev two_cores : BenchmarkConfig ℕ
two_cores = record (default_config tenths) { core_threads = 2 }

abbrev first_field : Setter tenths items
first_field = size_field tenths items (λ n c. record c { core_threads = n })

abbrev second_field : Setter tenths items
second_field = size_field tenths items (λ n c. record c { max_threads = n })

abbrev later_fields : List (String × Setter tenths items) → List (String × Setter tenths items)
later_fields (a ∷ b ∷ rest) = rest
later_fields _ = []

first_read :
    read_fields tenths items (("core_threads", first_field) ∷ []) mistyped (default_config tenths)
    ≡ (two_cores, true)
unfolding read_fields
first_read = refl

in_order :
    pool_fields tenths items
    ≡ ("core_threads", first_field)
      ∷ ("max_threads", second_field)
      ∷ later_fields (pool_fields tenths items)
unfolding pool_fields
in_order = refl

load_stops_example : load_from_file tenths items (one_file mistyped_file) "bench.json" ≡ two_cores
load_stops_example =
    load_stops tenths items (one_file mistyped_file) "bench.json" "bench.json" mistyped_file
      mistyped (text_item "many") (("core_threads", first_field) ∷ [])
      (later_fields (pool_fields tenths items)) "max_threads" second_field two_cores refl refl refl
      in_order first_read refl refl

-- Ten tasks for the default of four threads.
abbrev ten_tasks : BenchmarkConfig ℕ
ten_tasks = record (default_config tenths) { total_tasks = 10; submit_threads = 0 }

shares_of_ten : shares ten_tasks ≡ 2 ∷ 2 ∷ 2 ∷ 4 ∷ []
unfolding shares shares_from
shares_of_ten = refl

shares-total_example : (total (λ s. s) (shares ten_tasks) ≡ 10) × (length (shares ten_tasks) ≡ 4)
shares-total_example = shares-total ten_tasks

abbrev two_or_none : String → Option ℕ
two_or_none s = if s =s= "2" then some 2 else none

cli_with_path :
    parse_cli two_or_none ("--config" ∷ "b.json" ∷ "2" ∷ "2" ∷ "tasks" ∷ [])
    ≡ some (record {
      config_path = "b.json";
      core_threads = some 2;
      duration_seconds = some 2;
      duration_mode = some false;
      total_tasks = none;
    })
unfolding parse_cli take_path
cli_with_path = refl

abbrev no_arguments : Cli
no_arguments = record {
  config_path = "b.json";
  core_threads = none;
  duration_seconds = none;
  duration_mode = none;
  total_tasks = none;
}

-- The second scenario cannot be read: the first one has run.
abbrev two_scenarios : Item
two_scenarios =
    key_item "scenarios"
      (element_item (key_item "name" (text_item "") last_item)
        (element_item mistyped_file last_item))
      last_item

scenarios_run : main_runs tenths items (λ n. "n") (one_file two_scenarios) no_arguments ≡ (
  record { name = some "Scenario-n"; level = "warn"; config = default_config tenths } ∷ [],
  false,
)
unfolding main_runs scenario_runs scenarios_of single_run name_of load_from_file apply_override
    read_fields read_benchmark pool_fields benchmark_fields
scenarios_run = refl
