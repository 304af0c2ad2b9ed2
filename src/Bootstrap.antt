-- ===== src/Bootstrap.antt =====
-- `build_default_interceptor` of sentinel/bootstrap.py: the five classifiers in the pipeline, and the
-- bundle that a process starts with. What the classifiers take from libraries is a parameter.
pub mod Blocks
pub mod Restart
use osl_agent_sentinel.Prelude.{
  ℕ, String, true, Option, none, some, List, [], Outcome, ok, err, Error,
}
use osl_agent_sentinel.Runtime.{Library}
use osl_agent_sentinel.Models.Value.{Fields}
use osl_agent_sentinel.Models.Action.{Action}
use osl_agent_sentinel.Models.Decision.{RiskFactor}
use osl_agent_sentinel.Models.Identity.{Identity}
use osl_agent_sentinel.Models.Policy.{PolicyBundle}
use osl_agent_sentinel.Breaker.{new_breaker}
use osl_agent_sentinel.Identity.Resolver.{new_store}
use osl_agent_sentinel.Identity.TrustScorer.{default_scorer}
use osl_agent_sentinel.ToolValidator.{ToolRegistry, SchemaCheck, validate}
use osl_agent_sentinel.Anomaly.{BaselineStore, Numerals, default_detector, score}
use osl_agent_sentinel.Dlp.{DlpScanner, default_rules, new_dlp_scanner, scan_payload}
use osl_agent_sentinel.Injection.{
  InjectionDetector, InjectionNumerals, default_injection_config, scan_injection,
}
use osl_agent_sentinel.Intent.{
  IntentClassifier, IntentTexts, default_intent_config, classify_intent,
}
use osl_agent_sentinel.Pipeline.Evaluate.{ClassifierFn, PipelineDeps, PipelineState}
use osl_agent_sentinel.Signatures.Canonical.{Encoders}
use osl_agent_sentinel.Signatures.Loader.{BundleCodec}
use osl_agent_sentinel.Cache.{CacheFiles, MetaWriter, save_cache, load_cache}

-- What the classifiers take from Python's libraries and from the clock.
pub record Environment : Type 0 where
  pub library : Library
  pub search : String → String → Option String
  pub jsonschema_validate : Fields → Fields → SchemaCheck
  pub intent_texts : IntentTexts
  pub injection_numerals : InjectionNumerals
  pub numerals : Numerals
  pub now : ℕ

-- The parts of the classifiers that hold state.
pub record World : Type 0 where
  pub tools : ToolRegistry
  pub baselines : BaselineStore

-- `IntentClassifier()`, `PromptInjectionDetector()` and `DLPScanner.default()`
abbrev pub default_classifier : IntentClassifier
default_classifier = record { embeddings = none; config = default_intent_config }

abbrev pub default_injection_detector : InjectionDetector
default_injection_detector = record { model = none; config = default_injection_config }

abbrev pub default_dlp_scanner : DlpScanner
default_dlp_scanner = new_dlp_scanner (some default_rules) true

abbrev pub scored : List RiskFactor × BaselineStore → World → Outcome (List RiskFactor) × World
scored (factors, baselines) w = (ok factors, record w { baselines = baselines })

module _ (env : Environment) where
  abbrev pub run_intent : ClassifierFn World
  run_intent action identity w = (classify_intent env.intent_texts default_classifier action, w)

  abbrev pub run_tools : ClassifierFn World
  run_tools action identity w =
      (validate env.jsonschema_validate env.now w.tools action identity, w)

  abbrev pub run_anomaly : ClassifierFn World
  run_anomaly action identity w =
      scored (score env.numerals default_detector env.now action w.baselines) w

  abbrev pub run_injection : ClassifierFn World
  run_injection action identity w =
      (scan_injection env.search env.injection_numerals default_injection_detector action, w)

  abbrev pub run_dlp : ClassifierFn World
  run_dlp action identity w = (ok (scan_payload env.search default_dlp_scanner action), w)

  -- `PipelineDeps(...)`, with the `__qualname__` of each classifier's method.
  unfoldable pub default_deps : PipelineDeps World
  default_deps = record {
    library = env.library;
    trust_scorer = default_scorer;
    intent_classifier = ("IntentClassifier.classify", run_intent);
    tool_validator = ("ToolValidator.validate", run_tools);
    anomaly_detector = ("AnomalyDetector.score", run_anomaly);
    injection_detector = ("PromptInjectionDetector.scan", run_injection);
    dlp_scanner = ("DLPScanner.scan", run_dlp);
  }

-- The state of a new process: no identity, no tool and no baseline. The horizon is of 300 seconds.
unfoldable pub initial_state : PolicyBundle → PipelineState World
initial_state bundle = record {
  bundle = bundle;
  store = new_store [];
  identity_breaker = new_breaker "identity";
  world = record { tools = []; baselines = record { windows = []; horizon = 300_000_000 } };
}

module _ (enc : Encoders) (codec : BundleCodec) (writer : MetaWriter) where
  abbrev pub cached_or : Error → Option PolicyBundle → Outcome PolicyBundle
  cached_or e none = err e
  cached_or e (some bundle) = ok bundle

  -- The `except` branch.
  abbrev pub fall_back : Error → CacheFiles → Outcome PolicyBundle × CacheFiles
  fall_back e files = (cached_or e (load_cache enc codec writer files), files)

  abbrev pub after_save :
      CacheFiles → PolicyBundle → Outcome CacheFiles → Outcome PolicyBundle × CacheFiles
  after_save files bundle (ok saved) = (ok bundle, saved)
  after_save files bundle (err e) = fall_back e files

  -- The bundle that a process starts with, from what `loader.load()` returned or raised.
  unfoldable pub startup_bundle :
      CacheFiles → ℕ → Outcome PolicyBundle → Outcome PolicyBundle × CacheFiles
  startup_bundle files now (ok bundle) =
      after_save files bundle (save_cache enc codec writer files now bundle)
  startup_bundle files now (err e) = fall_back e files
