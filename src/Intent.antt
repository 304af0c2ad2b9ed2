-- ===== src/Intent.antt =====
-- sentinel/classifiers/intent_classifier.py. Overlaps are exact fractions; `str.strip`, `str.lower`,
-- the embedding provider and the number format are parameters.
pub mod Words
pub mod Bounds
use osl_agent_sentinel.Prelude.{
  ℕ, ◌+◌, ◌-◌, ◌*◌, max, String, Bool, true, false, not, ◌&&◌, ◌||◌, Option, none, some, List, [],
  ◌∷◌, ◌++◌, map, length, any, contains, select, ltb, leb, ◌==◌, string_eq, if◌then◌else◌, Outcome,
  ok, err, ◌>>=◌,
}
use osl_agent_sentinel.Prelude.Text.{is_in, take_chars, text_length}
use osl_agent_sentinel.Score.{Score, one, dec4, round_half_even}
use osl_agent_sentinel.Models.Action.{Action, ActionType, type_value}
use osl_agent_sentinel.Models.Decision.{RiskFactor}
use osl_agent_sentinel.Intent.Words.{word_set, tokenize, split_tool_tokens}

-- The numerator and the denominator of a quotient.
abbrev pub Overlap : Type 0
Overlap = ℕ × ℕ

-- The text operations, and `f"{_:.3f}"`.
pub record IntentTexts : Type 0 where
  pub strip : String → String
  pub lower : String → String
  pub fixed3 : Overlap → String

-- `EmbeddingProvider.similarity`
abbrev pub EmbeddingProvider : Type 0
EmbeddingProvider = String → String → Outcome Score

pub record IntentClassifierConfig : Type 0 where
  pub min_similarity_for_match : Score
  pub hard_drift_threshold : Score

abbrev pub default_intent_config : IntentClassifierConfig
default_intent_config = record {
  min_similarity_for_match = dec4 4_500;
  hard_drift_threshold = dec4 2_000;
}

pub record IntentClassifier : Type 0 where
  pub embeddings : Option EmbeddingProvider
  pub config : IntentClassifierConfig

-- `_INTENT_HINTS.get(action.type, set())`
abbrev pub intent_hints : ActionType → List String
intent_hints ActionType.file_write = "write" ∷ "save" ∷ "create" ∷ "update" ∷ "edit" ∷ "modify" ∷ []
intent_hints ActionType.file_read = "read" ∷ "load" ∷ "open" ∷ "fetch" ∷ "review" ∷ []
intent_hints ActionType.http_request = "request" ∷ "fetch" ∷ "post" ∷ "get" ∷ "call" ∷ "api" ∷ []
intent_hints ActionType.shell_command = "run" ∷ "execute" ∷ "shell" ∷ "command" ∷ []
intent_hints ActionType.code_execution = "execute" ∷ "run" ∷ "evaluate" ∷ "compute" ∷ []
intent_hints ActionType.payment = "pay" ∷ "charge" ∷ "refund" ∷ "transfer" ∷ "purchase" ∷ []
intent_hints ActionType.database_query = "query" ∷ "select" ∷ "insert" ∷ "update" ∷ "delete" ∷ []
intent_hints _ = []

abbrev pub no_hints : List String → Bool
no_hints [] = true
no_hints (_ ∷ _) = false

abbrev pub missing_factor : RiskFactor
missing_factor = record {
  code = "intent.missing";
  severity = dec4 2_500;
  detector = "intent_classifier";
  message = "Action submitted without declared intent.";
  evidence = ("references", "OWASP-AGENT-01") ∷ [];
}

-- `len(tokens & hints) / max(len(hints), 1) if hints else 0.5`
abbrev pub lexical : List String → List String → Overlap
lexical tokens hints =
    if no_hints hints
    then (1, 2)
    else (length (select (λ h. contains tokens h) hints), max (length hints) 1)

-- `(a / b + c / d) / 2.0`
abbrev pub average : Overlap → Overlap → Overlap
average (a, b) (c, d) = (a * d + c * b, 2 * (b * d))

-- `n / d >= bound`, and `n / d <= bound`
abbrev pub at_least : Overlap → Score → Bool
at_least (n, d) bound = leb (bound * d) (n * one)

abbrev pub at_most : Overlap → Score → Bool
at_most (n, d) bound = leb (n * one) (bound * d)

-- `len(a) >= 4 and len(b) >= 4 and (a in b or b in a)`
abbrev pub shares : String → String → Bool
unfolding text_length
shares a b = leb 4 (text_length a) && (leb 4 (text_length b) && (is_in a b || is_in b a))

abbrev pub shared_substring : List String → List String → Bool
shared_substring tokens hints = any (λ a. any (shares a) hints) tokens

-- Whether a drift that only the tool's name shows is let pass.
unfoldable pub is_benign : IntentClassifier → Bool → List String → List String → Bool
is_benign c curated tokens hints =
    not curated
    && (elim c.embeddings [ none ↦ true | some _ ↦ false ]
        && (leb (length tokens) 4 && not (shared_substring tokens hints)))

-- `round(min(1.0, 1.0 - combined), 3)`
unfoldable pub drift_severity : Overlap → Score
unfolding round_half_even
drift_severity (n, d) = dec4 (10 * round_half_even (1_000 * (d - n)) d)

abbrev pub drift_code : IntentClassifierConfig → Overlap → String
drift_code config combined =
    if at_most combined config.hard_drift_threshold
    then "intent.hard_drift"
    else "intent.soft_drift"

abbrev pub or_no_text : Option String → String
or_no_text none = ""
or_no_text (some s) = s

module _ (texts : IntentTexts) where
  abbrev pub tool_tokens : Option String → List String
  unfolding split_tool_tokens text_length
  tool_tokens none = []
  tool_tokens (some tool) =
      map texts.lower (select (λ t. ltb 2 (text_length t)) (split_tool_tokens tool))

  abbrev pub hints_for : Action → List String
  unfolding word_set
  hints_for action = word_set (intent_hints action.type ++ tool_tokens action.tool)

  abbrev pub tokens_of : String → List String
  unfolding word_set tokenize
  tokens_of intent = word_set (map texts.lower (tokenize intent))

  abbrev pub drift_factor :
      IntentClassifierConfig → Action → String → Overlap → Overlap → Overlap → RiskFactor
  drift_factor config action intent lex sem combined = record {
    code = drift_code config combined;
    severity = drift_severity combined;
    detector = "intent_classifier";
    message =
        "Declared intent does not align with the action being taken. Possible goal hijacking or prompt-driven redirection.";
    evidence =
        ("intent", take_chars 200 intent)
        ∷ ("action_type", type_value action.type)
        ∷ ("tool", or_no_text action.tool)
        ∷ ("lexical_overlap", texts.fixed3 lex)
        ∷ ("semantic_overlap", texts.fixed3 sem)
        ∷ ("references", "OWASP-AGENT-01")
        ∷ [];
  }

  abbrev pub has_tool : Option String → Bool
  has_tool none = false
  has_tool (some tool) = not (tool == "")

  -- `semantic_overlap`
  abbrev pub semantic : Option EmbeddingProvider → Action → String → Overlap → Outcome Overlap
  semantic none action intent lex = ok lex
  semantic (some similarity) action intent lex =
      if has_tool action.tool
      then (similarity intent (or_no_text action.tool) >>= λ s. ok (s, one))
      else ok lex

  -- What follows the two overlaps.
  unfoldable pub judge_drift :
      IntentClassifier → Action → String → Overlap → Overlap → List RiskFactor
  unfolding is_benign drift_severity
  judge_drift c action intent lex sem =
      let combined = average lex sem in
      if at_least combined c.config.min_similarity_for_match
      then []
      else if is_benign c (not (no_hints (intent_hints action.type))) (tokens_of intent)
          (hints_for action)
      then []
      else drift_factor c.config action intent lex sem combined ∷ []

  abbrev pub classify_declared : IntentClassifier → Action → String → Outcome (List RiskFactor)
  unfolding judge_drift
  classify_declared c action intent =
      let lex = lexical (tokens_of intent) (hints_for action) in
      semantic c.embeddings action intent lex >>= λ sem. ok (judge_drift c action intent lex sem)

  -- `IntentClassifier.classify`
  unfoldable pub classify_intent : IntentClassifier → Action → Outcome (List RiskFactor)
  unfolding judge_drift
  classify_intent c action =
      let intent = texts.strip (or_no_text action.intent) in
      if intent == "" then ok (missing_factor ∷ []) else classify_declared c action intent
