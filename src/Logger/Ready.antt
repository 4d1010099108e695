-- ===== src/Logger/Ready.antt =====
-- When the global logger of src/logger.cpp is there.
use Prim.Native.Char.{Char}
use Prim.Native.String.{String}
use mathlib.Core.Path.{subst}
use cpp_mpmc_thread_pool.Base.{
  ℕ, ◌≡◌, refl, ◌⊎◌, inl, inr, Bool, true, false, Option, none, some, List, [], ◌∷◌, if◌then◌else◌,
  Option-cases,
}
use cpp_mpmc_thread_pool.Logger.{LoggerConfig, Json, Levels, parse_config, default_config}
use cpp_mpmc_thread_pool.Logger.Build.{
  Spdlog, Globals, register, finish_logger, with_sinks, build_logger, configure,
}
use cpp_mpmc_thread_pool.Logger.Global.{
  Files, is_some, load_config_from_file, store_logger, init_from_json, init_default, init_from_file,
  ensure_initialized, set_logger, logger_is_ready, set_level, or_terminate, or_default,
  initialize_logger,
}

-- What the program can ask of the global logger.
pub data LogCall (Node Logger : Type 0) : Type 0 where
  init_json_call : Node → LogCall Node Logger
  init_file_call : String → LogCall Node Logger
  init_default_call : LogCall Node Logger
  load_call : LogCall Node Logger
  set_call : Option Logger → LogCall Node Logger
  level_call : String → LogCall Node Logger
  initialize_call : String → LogCall Node Logger

module _ (json : Json) (files : Files json.Node) (tolower : Char → Char) (levels : Levels)
    (cores : ℕ) (spdlog : Spdlog levels) where
  abbrev State : Type 0
  State = Globals levels spdlog

  -- The state behind a call; `none` where the program is terminated.
  unfoldable pub log_call : LogCall json.Node spdlog.Logger → State → Option State
  unfolding init_from_json init_from_file init_default ensure_initialized set_logger set_level
      initialize_logger
  log_call (init_json_call j) g = some (init_from_json json files tolower levels cores spdlog j g).0
  log_call (init_file_call path) g =
      some (init_from_file json files tolower levels cores spdlog path g).0
  log_call init_default_call g = some (init_default json files tolower levels cores spdlog g).0
  log_call load_call g = some (ensure_initialized json files tolower levels cores spdlog g).0
  log_call (set_call l) g = some (set_logger json files tolower levels cores spdlog l g).0
  log_call (level_call name) g = some (set_level json files tolower levels cores spdlog name g).0
  log_call (initialize_call path) g =
      initialize_logger json files tolower levels cores spdlog path g

  unfoldable pub log_calls : List (LogCall json.Node spdlog.Logger) → State → Option State
  unfolding log_call
  log_calls [] g = some g
  log_calls (c ∷ cs) g = elim (log_call c g) [ none ↦ none | some h ↦ log_calls cs h ]

  abbrev IsReady : State → Type 0
  IsReady g = logger_is_ready json files tolower levels cores spdlog g ≡ true

  -- Building a logger leaves the global one alone.
  register-global :
      (l : spdlog.Logger) (g : State) → (register levels spdlog l g).0.g_logger ≡ g.g_logger
  unfolding register
  register-global l g =
      elim (Option-cases
        (spdlog.register_logger (spdlog.name l) (spdlog.drop (spdlog.name l) g.registry))) [
          | inl e ↦ rw (e, register) refl
          | inr (r, e) ↦ rw (e, register) refl
        ]

  finish-global :
      (cfg : LoggerConfig levels.Level) (g : State)
      (o : Option (spdlog.Logger × Option spdlog.ThreadPool))
      → (finish_logger levels spdlog cfg g o).0.g_logger ≡ g.g_logger
  unfolding finish_logger
  finish-global cfg g none = refl
  finish-global cfg g (some (l, pool)) =
      register-global (configure levels spdlog cfg l) (record g { g_thread_pool = pool })

  with_sinks-global :
      (cfg : LoggerConfig levels.Level) (g : State) (o : Option (List spdlog.Sink))
      → (with_sinks levels spdlog cfg g o).0.g_logger ≡ g.g_logger
  unfolding with_sinks
  with_sinks-global cfg g none = refl
  with_sinks-global cfg g (some ss) = finish-global cfg g _

  build_logger-global :
      (cfg : LoggerConfig levels.Level) (g : State)
      → (build_logger levels spdlog cfg g).0.g_logger ≡ g.g_logger
  unfolding build_logger
  build_logger-global cfg g = with_sinks-global cfg g _

  -- Storing makes it ready, and an exception before it leaves it ready.
  store-IsReady :
      (x : State × Option spdlog.Logger)
      → IsReady x.0 ⊎ (is_some x.1 ≡ true)
      → IsReady (store_logger json files tolower levels cores spdlog x).0
  unfolding store_logger logger_is_ready
  store-IsReady (g, some l) e = refl
  store-IsReady (g, none) (inl e) = e
  store-IsReady (g, none) (inr e) = absurd (cc)

  same-IsReady : (g h : State) → g.g_logger ≡ h.g_logger → IsReady h → IsReady g
  unfolding logger_is_ready
  same-IsReady g h e r = rw (e) r

  init-IsReady :
      (j : json.Node) (g : State)
      → IsReady g
      → IsReady (init_from_json json files tolower levels cores spdlog j g).0
  unfolding init_from_json
  init-IsReady j g r = elim (Option-cases (parse_config json tolower levels cores j)) [
    | inl e ↦ rw (e, init_from_json) r
    | inr (cfg, e) ↦
        rw (e, init_from_json)
          (store-IsReady (build_logger levels spdlog cfg g) (
            inl
              (same-IsReady (build_logger levels spdlog cfg g).0 g (build_logger-global cfg g) r)))
  ]

  file-IsReady :
      (path : String) (g : State)
      → IsReady g
      → IsReady (init_from_file json files tolower levels cores spdlog path g).0
  unfolding init_from_file
  file-IsReady path g r =
      elim (Option-cases (load_config_from_file json files tolower levels cores spdlog path)) [
        | inl e ↦ rw (e, init_from_file) r
        | inr (j, e) ↦ rw (e, init_from_file) (init-IsReady j g r)
      ]

  ready_some : (g : State) → IsReady g → (l : spdlog.Logger) × (g.g_logger ≡ some l)
  unfolding logger_is_ready
  ready_some g r = elim (Option-cases g.g_logger) [ inl e ↦ absurd (cc) | inr (l, e) ↦ (l, e) ]

  load-IsReady :
      (g : State)
      → IsReady g
      → IsReady (ensure_initialized json files tolower levels cores spdlog g).0
  unfolding ensure_initialized logger_is_ready
  load-IsReady g r = let (l, e) = ready_some g r in rw (e, ensure_initialized) r

  level-IsReady :
      (name : String) (g : State)
      → IsReady g
      → IsReady (set_level json files tolower levels cores spdlog name g).0
  unfolding set_level ensure_initialized logger_is_ready
  level-IsReady name g r = let (l, e) = ready_some g r in rw (e, set_level) refl

  set-IsReady :
      (l : Option spdlog.Logger) (g : State)
      → IsReady g
      → IsReady (set_logger json files tolower levels cores spdlog l g).0
  unfolding set_logger
  set-IsReady none g r = r
  set-IsReady (some l) g r =
      store-IsReady (register levels spdlog l g)
        (inl (same-IsReady (register levels spdlog l g).0 g (register-global l g) r))

  call-IsReady :
      (c : LogCall json.Node spdlog.Logger) (g : State)
      → IsReady g
      → (h : State) × (log_call c g ≡ some h) × IsReady h
  unfolding log_call init_default initialize_logger
  call-IsReady (init_json_call j) g r = (_, refl, init-IsReady j g r)
  call-IsReady (init_file_call path) g r = (_, refl, file-IsReady path g r)
  call-IsReady init_default_call g r = (_, refl, init-IsReady (default_config json) g r)
  call-IsReady load_call g r = (_, refl, load-IsReady g r)
  call-IsReady (set_call l) g r = (_, refl, set-IsReady l g r)
  call-IsReady (level_call name) g r = (_, refl, level-IsReady name g r)
  call-IsReady (initialize_call path) g r = (g, rw (r) refl, r)

  calls-IsReady :
      (cs : List (LogCall json.Node spdlog.Logger)) (g : State)
      → IsReady g
      → (h : State) × (log_calls cs g ≡ some h) × IsReady h
  unfolding log_calls
  calls-IsReady [] g r = (g, refl, r)
  calls-IsReady (c ∷ cs) g r =
      let (h, e, q) = call-IsReady c g r in
      let (i, f, p) = calls-IsReady cs h q in (i, rw (e, log_calls) f, p)

  -- A logger that is returned is stored.
  abbrev ReturnsReady : State × Option spdlog.Logger → Type 0
  ReturnsReady x = is_some x.1 ≡ true → IsReady x.0

  store-ReturnsReady :
      (x : State × Option spdlog.Logger)
      → ReturnsReady (store_logger json files tolower levels cores spdlog x)
  unfolding store_logger
  store-ReturnsReady (g, some l) e = store-IsReady (g, some l) (inr refl)
  store-ReturnsReady (g, none) e = absurd (cc)

  init-ReturnsReady :
      (j : json.Node) (g : State)
      → ReturnsReady (init_from_json json files tolower levels cores spdlog j g)
  unfolding init_from_json
  init-ReturnsReady j g = elim (Option-cases (parse_config json tolower levels cores j)) [
    | inl e ↦ rw (e, init_from_json) (λ n. absurd (cc))
    | inr (cfg, e) ↦ rw (e, init_from_json) (store-ReturnsReady (build_logger levels spdlog cfg g))
  ]

  file-ReturnsReady :
      (path : String) (g : State)
      → ReturnsReady (init_from_file json files tolower levels cores spdlog path g)
  unfolding init_from_file
  file-ReturnsReady path g =
      elim (Option-cases (load_config_from_file json files tolower levels cores spdlog path)) [
        | inl e ↦ rw (e, init_from_file) (λ n. absurd (cc))
        | inr (j, e) ↦ rw (e, init_from_file) (init-ReturnsReady j g)
      ]

  same_some : (g h : State) → some g ≡ some h → IsReady g → IsReady h
  same_some g h e r =
      subst (λ (o : Option State). elim o [ none ↦ IsReady h | some i ↦ IsReady i ]) e r

  terminate-ReturnsReady :
      (x : State × Option spdlog.Logger) (h : State)
      → ReturnsReady x
      → or_terminate json files tolower levels cores spdlog x ≡ some h
      → IsReady h
  unfolding or_terminate
  terminate-ReturnsReady (g, some l) h r e = same_some g h e (r refl)
  terminate-ReturnsReady (g, none) h r e = absurd (cc)

  default-ReturnsReady :
      (x : State × Option spdlog.Logger) (h : State)
      → ReturnsReady x
      → or_default json files tolower levels cores spdlog x ≡ some h
      → IsReady h
  unfolding or_default init_default
  default-ReturnsReady (g, some l) h r e = same_some g h e (r refl)
  default-ReturnsReady (g, none) h r e =
      terminate-ReturnsReady (init_default json files tolower levels cores spdlog g) h
        (init-ReturnsReady (default_config json) g) e

  either-IsReady :
      (path : String) (g h : State) (b : Bool)
      → (b ≡ true → IsReady g)
      → (if b
          then some g
          else or_default json files tolower levels cores spdlog
              (init_from_file json files tolower levels cores spdlog path g))
        ≡ some h
      → IsReady h
  either-IsReady path g h true r e = same_some g h e (r refl)
  either-IsReady path g h false r e =
      default-ReturnsReady (init_from_file json files tolower levels cores spdlog path g) h
        (file-ReturnsReady path g) e

  initialized-IsReady :
      (path : String) (g h : State)
      → initialize_logger json files tolower levels cores spdlog path g ≡ some h
      → IsReady h
  unfolding initialize_logger
  initialized-IsReady path g h e =
      either-IsReady path g h (logger_is_ready json files tolower levels cores spdlog g) (λ r. r) e

  -- When `InitializeLogger` has returned, whichever of its two attempts was used, no sequence of
  -- calls that load, set, initialize or change the level of the global logger terminates the
  -- program or leaves it without a logger, also where they throw.
  pub initialized_stays :
      (path : String) (g h : State) (cs : List (LogCall json.Node spdlog.Logger))
      → initialize_logger json files tolower levels cores spdlog path g ≡ some h
      → (i : State) × (log_calls cs h ≡ some i)
        × (logger_is_ready json files tolower levels cores spdlog i ≡ true)
  initialized_stays path g h cs e = calls-IsReady cs h (initialized-IsReady path g h e)
