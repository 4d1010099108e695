-- ===== src/Config/Loads.antt =====
-- What a loader of src/config.cpp holds, whatever it was made from.
use Prim.Native.String.{String}
use cpp_mpmc_thread_pool.Base.{
  ◌⊎◌, inl, inr, ◌≡◌, refl, ap, ◌∙◌, true, Option, none, some, arith, Option-cases,
}
use cpp_mpmc_thread_pool.Config.{ThreadPoolConfig, Json, ◌>>=◌, parse_raw, load_json}
use cpp_mpmc_thread_pool.Config.Loader.{
  Loader, Texts, ready, get_config, load_from_json, load_from_string, load_from_file, from_file,
  from_string, from_json, kept, new_loader, store, load_object,
}
use cpp_mpmc_thread_pool.Config.RoundTrip.{Sane, normalize-Sane}

-- What `FromFile`, `FromString` and `FromJson` are given.
pub data Input {Double : Type 0} (json : Json Double) : Type 0 where
  file_input : (filepath : String) → Input json
  text_input : String → Input json
  json_input : json.Object → Input json

module _ {Double : Type 0} (json : Json Double) (texts : Texts json) (up down : Double) where
  unfoldable pub from_input : Input json → Option (Loader Double)
  unfolding from_file from_string from_json
  from_input (file_input filepath) = from_file json texts up down filepath
  from_input (text_input text) = from_string json texts up down text
  from_input (json_input jcfg) = from_json json texts up down jcfg

  -- The object that an input means, if it means one.
  abbrev pub object_of : Input json → Option json.Object
  object_of (file_input filepath) = texts.open_file filepath >>= texts.read
  object_of (text_input text) = texts.parse text
  object_of (json_input jcfg) = some jcfg

  -- The configuration that an input means.
  abbrev pub meaning : Input json → Option (ThreadPoolConfig Double)
  meaning x = object_of x >>= load_json json up down

  load_json-Sane :
      (jcfg : json.Object)
      → (load_json json up down jcfg ≡ none)
        ⊎ ((cfg : ThreadPoolConfig Double) × (load_json json up down jcfg ≡ some cfg) × Sane cfg)
  unfolding load_json
  load_json-Sane jcfg = elim (Option-cases (parse_raw json jcfg)) [
    | inl e ↦ inl (ground (arith, e))
    | inr (raw, e) ↦ elim (normalize-Sane up down raw) [
      | inl (unknown, h) ↦ inl (ground (arith, e, h))
      | inr (cfg, h, sane) ↦ inr (cfg, ground (arith, e, h), sane)
    ]
  ]

  meaning-Sane :
      (x : Input json)
      → (meaning x ≡ none) ⊎ ((cfg : ThreadPoolConfig Double) × (meaning x ≡ some cfg) × Sane cfg)
  meaning-Sane x = elim (Option-cases (object_of x)) [
    | inl e ↦ inl (ap (λ o. o >>= load_json json up down) e)
    | inr (jcfg, e) ↦ elim (load_json-Sane jcfg) [
      | inl h ↦ inl (ap (λ o. o >>= load_json json up down) e ∙ h)
      | inr (cfg, h, sane) ↦ inr (cfg, ap (λ o. o >>= load_json json up down) e ∙ h, sane)
    ]
  ]

  abbrev loader_of : Option (ThreadPoolConfig Double) → Option (Loader Double)
  loader_of none = none
  loader_of (some cfg) = some (record { config = some cfg })

  kept-store :
      (o : Option (ThreadPoolConfig Double))
      → kept json texts up down (store json texts up down new_loader o) ≡ loader_of o
  kept-store none = refl
  kept-store (some cfg) = refl

  kept-load_object :
      (o : Option json.Object)
      → kept json texts up down (load_object json texts up down new_loader o)
        ≡ loader_of (o >>= load_json json up down)
  unfolding load_object load_from_json
  kept-load_object none = refl
  kept-load_object (some jcfg) = kept-store (load_json json up down jcfg)

  -- Each way in keeps what its input means.
  from_input-meaning : (x : Input json) → from_input x ≡ loader_of (meaning x)
  unfolding from_input from_file from_string from_json load_from_file load_from_string
  from_input-meaning (file_input filepath) =
      kept-load_object (texts.open_file filepath >>= texts.read)
  from_input-meaning (text_input text) = kept-load_object (texts.parse text)
  from_input-meaning (json_input jcfg) = kept-load_object (some jcfg)

  -- `FromFile`, `FromString` and `FromJson` return no loader exactly when the input cannot be
  -- read, parsed or normalized, and otherwise a loader that is ready and holds the configuration
  -- that the input means, which satisfies the sanity rules.
  pub from_input-Sane :
      (x : Input json)
      → ((meaning x ≡ none) × (from_input x ≡ none))
        ⊎ ((cfg : ThreadPoolConfig Double) × (l : Loader Double) × (meaning x ≡ some cfg)
            × (from_input x ≡ some l)
            × (ready l ≡ true)
            × (get_config l ≡ some cfg)
            × Sane cfg)
  from_input-Sane x = elim (meaning-Sane x) [
    | inl e ↦ inl (e, from_input-meaning x ∙ ap loader_of e)
    | inr (cfg, e, sane) ↦ inr (
      cfg,
      record { config = some cfg },
      e,
      from_input-meaning x ∙ ap loader_of e,
      refl,
      refl,
      sane,
    )
  ]
