-- ===== src/Injection.antt =====
-- sentinel/classifiers/injection_detector.py. The search of a compiled pattern and the optional model
-- are parameters; a model may raise. Scores are exact.
pub mod Detects
use osl_agent_sentinel.Prelude.{
  ℕ, ◌+◌, ◌*◌, max, min, String, Bool, true, false, ◌||◌, Option, none, some, List, [], ◌∷◌, ◌++◌,
  length, ltb, leb, ◌==◌, ℕ_eq, string_eq, if◌then◌else◌, Outcome, ok, err, ◌>>=◌, Error,
}
use osl_agent_sentinel.Prelude.Text.{take_chars}
use osl_agent_sentinel.Score.{Score, one, dec4, round3}
use osl_agent_sentinel.Models.Action.{Action, ActionType}
use osl_agent_sentinel.Models.Decision.{RiskFactor}
use osl_agent_sentinel.Models.Texts.{iter_text}

-- `InjectionModel.score`
abbrev pub InjectionModel : Type 0
InjectionModel = String → Outcome Score

pub record InjectionDetectorConfig : Type 0 where
  pub threshold : Score
  pub max_chars_per_field : ℕ

abbrev pub default_injection_config : InjectionDetectorConfig
default_injection_config = record { threshold = dec4 7_500; max_chars_per_field = 16_000 }

-- `_PATTERNS`
abbrev pub injection_patterns : List String
injection_patterns =
    "(?i)\\bignore\\s+(?:all\\s+)?(?:previous|prior|earlier)\\s+(?:instructions?|rules?)\\b"
    ∷ "(?i)\\bdisregard\\s+(?:all\\s+)?(?:previous|prior|system)\\s+(?:instructions?|prompts?)\\b"
    ∷ "(?i)\\b(?:from\\s+now\\s+on|new\\s+instructions?)\\s*[:\\-]"
    ∷ "(?i)\\byou\\s+are\\s+now\\s+(?:a\\s+)?(?:different|new)\\b"
    ∷ "(?i)\\b(?:reveal|show|print|output)\\s+(?:the\\s+)?(?:system\\s+prompt|hidden\\s+prompt|developer\\s+prompt)\\b"
    ∷ "(?i)\\bjailbreak\\b|\\bDAN\\b|\\bdo\\s+anything\\s+now\\b"
    ∷ "(?i)\\boverride\\s+(?:the\\s+)?safety\\b"
    ∷ "(?i)\\b(?:exfiltrate|leak)\\s+.*\\b(?:api[_\\s-]?key|password|token|secret)s?\\b"
    ∷ "(?i)\\bcurl\\s+.*\\|\\s*(?:sh|bash|python)\\b"
    ∷ "(?i)\\b(?:base64|hex)\\s*decoded?\\b.*\\b(?:execute|run)\\b" ∷ []

-- `PromptInjectionDetector`
pub record InjectionDetector : Type 0 where
  pub model : Option InjectionModel
  pub config : InjectionDetectorConfig

-- `str` of a count and `f"{_:.3f}"` of a score.
pub record InjectionNumerals : Type 0 where
  pub str_of_count : ℕ → String
  pub fixed3 : Score → String

-- `max([await model.score(...) for ...])`: an exception of any of the calls ends the whole.
unfoldable pub max_score : InjectionModel → ℕ → List String → Outcome Score
max_score model limit [] = ok 0
max_score model limit (text ∷ texts) =
    model (take_chars limit text) >>= λ s. max_score model limit texts >>= λ rest. ok (max s rest)

abbrev pub or_zero : Outcome Score → Score
or_zero (ok s) = s
or_zero (err e) = 0

unfoldable pub model_score : InjectionDetector → List String → Score
unfolding max_score
model_score d candidates = elim d.model [
  | none ↦ 0
  | some model ↦ or_zero (max_score model d.config.max_chars_per_field candidates)
]

-- `min(1.0, 0.55 + 0.1 * len(pattern_hits))`, if there are any
abbrev pub hits_severity : ℕ → Score
hits_severity hits = if hits == 0 then 0 else min one (dec4 (5_500 + 1_000 * hits))

abbrev pub injection_severity : InjectionDetectorConfig → ℕ → Score → Score
injection_severity config hits score =
    if ltb config.threshold score then max (hits_severity hits) score else hits_severity hits

abbrev pub action_kind : ActionType → String
action_kind ActionType.memory_write = "injection.memory_poisoning"
action_kind ActionType.memory_read = "injection.memory_poisoning"
action_kind _ = "injection.prompt_injection"

abbrev pub new_injection_factor : InjectionNumerals → ActionType → ℕ → Score → Score → RiskFactor
new_injection_factor nums type hits score severity = record {
  code = action_kind type;
  severity = round3 severity;
  detector = "prompt_injection_detector";
  message =
      "Suspected prompt-injection or instruction-override pattern in agent input. Review the offending fields and consider quarantine.";
  evidence =
      ("pattern_hits", nums.str_of_count hits)
      ∷ ("model_score", nums.fixed3 score)
      ∷ ("references", "OWASP-AGENT-01,OWASP-AGENT-02")
      ∷ [];
}

-- The validation of a `RiskFactor` wants a severity of 1.0 at most.
abbrev pub validated : RiskFactor → Outcome (List RiskFactor)
validated f = if ltb one f.severity then err Error.raised else ok (f ∷ [])

abbrev pub injection_result :
    InjectionNumerals → ActionType → ℕ → Score → Score → Outcome (List RiskFactor)
injection_result nums type hits score severity =
    if severity == 0 then ok [] else validated (new_injection_factor nums type hits score severity)

module _ (search : String → String → Option String) (nums : InjectionNumerals) where
  abbrev pub hit_of : String → Option String → List (String × String) → List (String × String)
  hit_of pattern none rest = rest
  hit_of pattern (some found) rest = (pattern, take_chars 160 found) ∷ rest

  -- The patterns over one text.
  unfoldable pub text_hits : String → List String → List (String × String)
  text_hits text [] = []
  text_hits text (pattern ∷ patterns) =
      hit_of pattern (search pattern text) (text_hits text patterns)

  unfoldable pub pattern_hits : ℕ → List String → List (String × String)
  unfolding text_hits
  pattern_hits limit [] = []
  pattern_hits limit (text ∷ texts) =
      text_hits (take_chars limit text) injection_patterns ++ pattern_hits limit texts

  -- What follows the collection of the candidates, of which there is at least one.
  abbrev pub scan_candidates : InjectionDetector → Action → List String → Outcome (List RiskFactor)
  scan_candidates d action candidates =
      let hits = length (pattern_hits d.config.max_chars_per_field candidates) in
      let score = model_score d candidates in
      injection_result nums action.type hits score (injection_severity d.config hits score)

  abbrev pub unless_no_text : InjectionDetector → Action → List String → Outcome (List RiskFactor)
  unless_no_text d action [] = ok []
  unless_no_text d action (text ∷ texts) = scan_candidates d action (text ∷ texts)

  -- `PromptInjectionDetector.scan`, and its alias `classify`
  unfoldable pub scan_injection : InjectionDetector → Action → Outcome (List RiskFactor)
  unfolding pattern_hits model_score iter_text
  scan_injection d action = unless_no_text d action (iter_text action)
