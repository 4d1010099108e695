-- ===== src/Config/Tests.antt =====
-- A JSON object as a list of assignments, the last one first, and thresholds in percent.
use Prim.Native.String.{String}
use text.Mathlib.Text.{◌==◌}
use cpp_mpmc_thread_pool.Base.{
  ℕ, ◌⊎◌, ◌≡◌, refl, true, Option, none, some, List, [], ◌∷◌, arith, if◌then◌else◌,
}
use cpp_mpmc_thread_pool.Base.Words.{ℤ, pos}
use cpp_mpmc_thread_pool.Pool.{discard}
use cpp_mpmc_thread_pool.Config.{
  ThreadPoolConfig, RawConfig, Value, natural, integer, double, chars, Json, normalize, load_json,
  to_json,
}
use cpp_mpmc_thread_pool.Config.Loader.{Loader, Texts, ready, get_config}
use cpp_mpmc_thread_pool.Config.Loads.{file_input, from_input, meaning, from_input-Sane}
use cpp_mpmc_thread_pool.Config.RoundTrip.{Sane, above, Storable, JsonLaws, load_json-to_json}

abbrev find_entry : List (String × Value ℕ) → String → Option (Value ℕ)
find_entry [] k' = none
find_entry ((k, v) ∷ es) k' = if k == k' then some v else find_entry es k'

abbrev to_size : Value ℕ → Option ℕ
to_size (natural n) = some n
to_size (integer (pos n)) = some n
to_size v = none

abbrev to_int : Value ℕ → Option ℤ
to_int (integer z) = some z
to_int (natural n) = some (pos n)
to_int v = none

abbrev to_double : Value ℕ → Option ℕ
to_double (double d) = some d
to_double v = none

abbrev to_text : Value ℕ → Option String
to_text (chars s) = some s
to_text v = none

abbrev entry_json : Json ℕ
entry_json = record {
  Object = List (String × Value ℕ);
  empty = [];
  put = λ j k v. (k, v) ∷ j;
  find = find_entry;
  get_size = to_size;
  get_int = to_int;
  get_double = to_double;
  get_text = to_text;
}

entry_json-JsonLaws : JsonLaws entry_json
entry_json-JsonLaws = record {
  find-empty = λ k. refl;
  find-put = λ j k v k'. refl;
  get_size-natural = λ n small. refl;
  get_size-integer = λ n small. refl;
  get_int-integer = λ z fits. refl;
  get_double-double = λ d. refl;
  get_text-chars = λ s. refl;
}

abbrev four_to_eight : ThreadPoolConfig ℕ
four_to_eight = record {
  queue_cap = 1024;
  core_threads = 4;
  max_threads = 8;
  load_check_interval = pos 100;
  keep_alive = pos 5000;
  scale_up_threshold = 75;
  scale_down_threshold = 25;
  pending_hi = 64;
  pending_low = 8;
  debounce_hits = 3;
  cooldown = pos 500;
  queue_policy = discard;
}

four_to_eight-Sane : Sane four_to_eight
four_to_eight-Sane = record {
  some_thread = omega arith;
  room_to_grow = omega arith;
  ordered = omega arith;
  some_hit = omega arith;
}

four_to_eight-Storable : Storable four_to_eight
four_to_eight-Storable = record {
  queue_cap = omega arith;
  max_threads = omega arith;
  load_check_interval = above 100 (omega arith);
  keep_alive = above 5000 (omega arith);
  pending_hi = omega arith;
  debounce_hits = omega arith;
  cooldown_ms = 500;
  cooldown = refl;
  cooldown_small = omega arith;
}

load_json-to_json_example :
    load_json entry_json 80 20 (to_json entry_json four_to_eight) ≡ some four_to_eight
load_json-to_json_example =
    load_json-to_json entry_json entry_json-JsonLaws 80 20 four_to_eight four_to_eight-Sane
      four_to_eight-Storable

-- No threads, and the thresholds of the queue in the wrong order.
abbrev odd : RawConfig ℕ
odd = record {
  queue_cap = none;
  core_threads = some 0;
  max_threads = some 0;
  load_check_interval_ms = none;
  keep_alive_ms = none;
  scale_up_threshold = none;
  scale_down_threshold = none;
  pending_hi = some 3;
  pending_low = some 9;
  debounce_hits = some 0;
  cooldown_ms = none;
  queue_policy = some "Discard";
}

unknown_policy : normalize 75 25 (record odd { queue_policy = some "Drop" }) ≡ none
unfolding normalize
unknown_policy = refl

-- One file, and one text that means the configuration above.
abbrev one_text : Texts entry_json
one_text = record {
  open_file = λ filepath. if filepath == "pool.json" then some "text" else none;
  read = λ text. some (to_json entry_json four_to_eight);
  parse = λ text. if text == "text" then some (to_json entry_json four_to_eight) else none;
  print = λ jcfg. "text";
}

from_input-Sane_example :
    ((meaning entry_json one_text 75 25 (file_input "pool.json") ≡ none)
      × (from_input entry_json one_text 75 25 (file_input "pool.json") ≡ none))
    ⊎ ((cfg : ThreadPoolConfig ℕ) × (l : Loader ℕ) × (meaning entry_json one_text 75 25
            (file_input "pool.json")
          ≡ some cfg)
        × (from_input entry_json one_text 75 25 (file_input "pool.json") ≡ some l)
        × (ready l ≡ true)
        × (get_config l ≡ some cfg)
        × Sane cfg)
from_input-Sane_example = from_input-Sane entry_json one_text 75 25 (file_input "pool.json")

no_such_file : from_input entry_json one_text 75 25 (file_input "other.json") ≡ none
unfolding from_input
no_such_file = refl
