-- ===== src/Config/Loader.antt =====
-- `ThreadPoolConfigLoader` of src/config.cpp: the configuration that a loader keeps, and where it
-- comes from. Files and the text form of JSON are parameters.
use Prim.Native.String.{String}
use cpp_mpmc_thread_pool.Base.{Bool, true, false, Option, none, some, if◌then◌else◌}
use cpp_mpmc_thread_pool.Config.{ThreadPoolConfig, Json, ◌>>=◌, load_json, to_json}

pub record Loader (Double : Type 0) : Type 0 where
  pub config : Option (ThreadPoolConfig Double)

-- `open_file` gives what a stream on the file reads, or `none` if it does not open. `read` is
-- `operator>>`, `parse` is `json::parse`; both throw on bad input. `print` is `dump(2)`.
pub record Texts {Double : Type 0} (json : Json Double) : Type 0 where
  pub open_file : String → Option String
  pub read : String → Option json.Object
  pub parse : String → Option json.Object
  pub print : json.Object → String

module _ {Double : Type 0} where
  abbrev pub new_loader : Loader Double
  new_loader = record { config = none }

  -- The moves. The optional configuration that was moved from still holds a value.
  abbrev pub move_from : Loader Double → Loader Double × Loader Double
  move_from other = (record { config = other.config }, other)

  abbrev pub ready : Loader Double → Bool
  ready l = elim l.config [ none ↦ false | some cfg ↦ true ]

  -- `none` is the exception.
  abbrev pub get_config : Loader Double → Option (ThreadPoolConfig Double)
  get_config l = l.config

  module _ (json : Json Double) (texts : Texts json) (up down : Double) where
    -- What `LoadJson` returns, and what it keeps; an exception keeps what was there.
    abbrev pub store : Loader Double → Option (ThreadPoolConfig Double) → Bool × Loader Double
    store l none = (false, l)
    store l (some cfg) = (true, record { config = some cfg })

    -- `LoadJson`, and `LoadFromJson`, which has nothing left to catch.
    unfoldable pub load_from_json : Loader Double → json.Object → Bool × Loader Double
    unfolding load_json
    load_from_json l jcfg = store l (load_json json up down jcfg)

    -- `none` is input that cannot be read or parsed.
    unfoldable pub load_object : Loader Double → Option json.Object → Bool × Loader Double
    unfolding load_from_json
    load_object l none = (false, l)
    load_object l (some jcfg) = load_from_json l jcfg

    unfoldable pub load_from_string : Loader Double → String → Bool × Loader Double
    unfolding load_object
    load_from_string l text = load_object l (texts.parse text)

    unfoldable pub load_from_file : Loader Double → String → Bool × Loader Double
    unfolding load_object
    load_from_file l filepath = load_object l (texts.open_file filepath >>= texts.read)

    -- `if (!loader.Load…) { return std::nullopt; } return loader;`
    abbrev pub kept : Bool × Loader Double → Option (Loader Double)
    kept (ok, l) = if ok then some l else none

    unfoldable pub from_file : String → Option (Loader Double)
    unfolding load_from_file
    from_file filepath = kept (load_from_file new_loader filepath)

    unfoldable pub from_string : String → Option (Loader Double)
    unfolding load_from_string
    from_string text = kept (load_from_string new_loader text)

    unfoldable pub from_json : json.Object → Option (Loader Double)
    unfolding load_from_json
    from_json jcfg = kept (load_from_json new_loader jcfg)

    unfoldable pub dump : Loader Double → String
    unfolding to_json
    dump l = elim l.config [ none ↦ "{}" | some cfg ↦ texts.print (to_json json cfg) ]
