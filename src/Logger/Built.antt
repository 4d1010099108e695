-- ===== src/Logger/Built.antt =====
-- The sinks' own patterns in src/logger.cpp.
use Prim.Native.String.{String}
use text.Mathlib.Text.{◌==◌ as ◌=s=◌}
use mathlib.Core.List.{map}
use cpp_mpmc_thread_pool.Base.{
  ◌≡◌, refl, sym, ap, ◌∙◌, inl, inr, Option, none, some, List, [], ◌∷◌, Option-cases, Bool-cases,
}
use cpp_mpmc_thread_pool.Logger.{SinkSpec, LoggerConfig, Levels, safe_parse_level}
use cpp_mpmc_thread_pool.Logger.Build.{
  Spdlog, Globals, build_sink, apply_sink_overrides, add_sink, build_sinks, or_console,
  start_logger, configure, finish_logger, with_sinks, build_logger, register,
}

-- A specification without a pattern of its own.
abbrev pub blank : SinkSpec → SinkSpec
blank spec = record spec { pattern = "" }

module _ (levels : Levels) (spdlog : Spdlog levels) where
  abbrev pub repaint : String → List spdlog.Sink → List spdlog.Sink
  repaint p [] = []
  repaint p (s ∷ ss) = spdlog.sink_set_pattern p s ∷ repaint p ss

  -- What spdlog says of patterns: the last one that a sink is given counts, levels and patterns do not
  -- depend on one another, and the pattern of a logger is given to each of its sinks.
  pub record PatternLaws : Type 0 where
    pub last_counts :
        (p q : String) (s : spdlog.Sink)
        → spdlog.sink_set_pattern p (spdlog.sink_set_pattern q s) ≡ spdlog.sink_set_pattern p s
    pub level_apart :
        (p : String) (v : levels.Level) (s : spdlog.Sink)
        → spdlog.sink_set_pattern p (spdlog.sink_set_level v s)
          ≡ spdlog.sink_set_level v (spdlog.sink_set_pattern p s)
    pub level_kept :
        (p : String) (s : spdlog.Sink)
        → spdlog.sink_level (spdlog.sink_set_pattern p s) ≡ spdlog.sink_level s
    pub logger_level_apart :
        (p : String) (v : levels.Level) (l : spdlog.Logger)
        → spdlog.set_pattern p (spdlog.set_level v l) ≡ spdlog.set_level v (spdlog.set_pattern p l)
    pub each_sink :
        (p n : String) (ss ts : List spdlog.Sink)
        → repaint p ss ≡ repaint p ts
        → spdlog.set_pattern p (spdlog.logger n ss) ≡ spdlog.set_pattern p (spdlog.logger n ts)
    pub each_sink_async :
        (p n : String) (ss ts : List spdlog.Sink) (pool : spdlog.ThreadPool)
        → repaint p ss ≡ repaint p ts
        → spdlog.set_pattern p (spdlog.async_logger n ss pool)
          ≡ spdlog.set_pattern p (spdlog.async_logger n ts pool)

  module _ (laws : PatternLaws) (p : String) where
    overrides_alike :
        (spec : SinkSpec) (s : spdlog.Sink)
        → spdlog.sink_set_pattern p (apply_sink_overrides levels spdlog (blank spec) s)
          ≡ spdlog.sink_set_pattern p (apply_sink_overrides levels spdlog spec s)
    unfolding apply_sink_overrides
    overrides_alike spec s = elim (Bool-cases (spec.pattern =s= "")) [
      | inl e ↦ elim (Bool-cases (spec.level =s= "")) [
        | inl f ↦ rw (e, f) refl
        | inr f ↦ rw (e, f) refl
      ]
      | inr e ↦ elim (Bool-cases (spec.level =s= "")) [
        | inl f ↦ rw (e, f) (sym (laws.last_counts p spec.pattern s))
        | inr f ↦
            rw (e, f, laws.level_kept spec.pattern s)
              (let v = safe_parse_level levels spec.level (spdlog.sink_level s) in
                laws.level_apart p v s
                ∙ ap (spdlog.sink_set_level v) (sym (laws.last_counts p spec.pattern s))
                ∙ sym (laws.level_apart p v (spdlog.sink_set_pattern spec.pattern s)))
      ]
    ]

    abbrev repaint_all : Option (List spdlog.Sink) → Option (List spdlog.Sink)
    repaint_all none = none
    repaint_all (some ss) = some (repaint p ss)

    add_alike :
        (spec : SinkSpec) (b : Option (Option spdlog.Sink)) (o o' : Option (List spdlog.Sink))
        → repaint_all o ≡ repaint_all o'
        → repaint_all (add_sink levels spdlog (blank spec) b o)
          ≡ repaint_all (add_sink levels spdlog spec b o')
    unfolding add_sink
    add_alike spec none o o' e = refl
    add_alike spec (some b) none none e = refl
    add_alike spec (some b) none (some ss) e = absurd (cc)
    add_alike spec (some b) (some ss) none e = absurd (cc)
    add_alike spec (some none) (some ss) (some ts) e = e
    add_alike spec (some (some s)) (some ss) (some ts) e = cc (overrides_alike spec s)

    sinks_alike :
        (specs : List SinkSpec)
        → repaint_all (build_sinks levels spdlog (map blank specs))
          ≡ repaint_all (build_sinks levels spdlog specs)
    unfolding build_sinks build_sink
    sinks_alike [] = refl
    sinks_alike (spec ∷ specs) =
        add_alike spec (build_sink levels spdlog spec) _ _ (sinks_alike specs)

    console_alike :
        (ss ts : List spdlog.Sink)
        → repaint p ss ≡ repaint p ts
        → repaint p (or_console levels spdlog ss) ≡ repaint p (or_console levels spdlog ts)
    unfolding or_console
    console_alike [] [] e = refl
    console_alike [] (t ∷ ts) e = absurd (cc)
    console_alike (s ∷ ss) [] e = absurd (cc)
    console_alike (s ∷ ss) (t ∷ ts) e = e

  -- Two loggers that the settings make the same.
  module _ (laws : PatternLaws) (cfg : LoggerConfig levels.Level) where
    configure_alike :
        (l m : spdlog.Logger)
        → spdlog.set_pattern cfg.pattern l ≡ spdlog.set_pattern cfg.pattern m
        → configure levels spdlog cfg l ≡ configure levels spdlog cfg m
    unfolding configure
    configure_alike l m e =
        rw
          (
            laws.logger_level_apart cfg.pattern cfg.level l,
            laws.logger_level_apart cfg.pattern cfg.level m,
            e,
          )
          refl

    start_alike :
        (g : Globals levels spdlog) (ss ts : List spdlog.Sink)
        → repaint cfg.pattern ss ≡ repaint cfg.pattern ts
        → finish_logger levels spdlog cfg g (start_logger levels spdlog cfg ss)
          ≡ finish_logger levels spdlog cfg g (start_logger levels spdlog cfg ts)
    unfolding start_logger finish_logger
    start_alike g ss ts e = elim (Bool-cases cfg.async) [
      | inl a ↦ elim (Option-cases (spdlog.thread_pool cfg.queue_size cfg.workers)) [
        | inl f ↦ rw (a, f) refl
        | inr (pool, f) ↦
            rw (a, f)
              (ap (λ l. register levels spdlog l (record g { g_thread_pool = some pool }))
                (configure_alike _ _ (laws.each_sink_async cfg.pattern cfg.name ss ts pool e)))
      ]
      | inr a ↦ rw (a) (
          ap (λ l. register levels spdlog l (record g { g_thread_pool = none }))
            (configure_alike _ _ (laws.each_sink cfg.pattern cfg.name ss ts e)))
    ]

    with_sinks_alike :
        (g : Globals levels spdlog) (o o' : Option (List spdlog.Sink))
        → repaint_all laws cfg.pattern o ≡ repaint_all laws cfg.pattern o'
        → with_sinks levels spdlog cfg g o ≡ with_sinks levels spdlog cfg g o'
    unfolding with_sinks
    with_sinks_alike g none none e = refl
    with_sinks_alike g none (some ts) e = absurd (cc)
    with_sinks_alike g (some ss) none e = absurd (cc)
    with_sinks_alike g (some ss) (some ts) e =
        start_alike g _ _ (console_alike laws cfg.pattern ss ts cc)

    -- `BuildLogger` does the same, exceptions included, as with specifications whose sinks have no
    -- patterns of their own: these have no effect, with a spdlog in which the last pattern that a
    -- sink is given counts, patterns and levels do not depend on one another, and the pattern of a
    -- logger is given to each of its sinks.
    pub patterns_unused :
        (g : Globals levels spdlog)
        → build_logger levels spdlog (record cfg { sinks = map blank cfg.sinks }) g
          ≡ build_logger levels spdlog cfg g
    unfolding build_logger with_sinks finish_logger start_logger configure
    patterns_unused g = with_sinks_alike g _ _ (sinks_alike laws cfg.pattern cfg.sinks)
