-- ===== src/Examples/Data.antt =====
-- A small deployment: one agent, one revoked agent, a bundle of three rules, quiet classifiers.
use osl_agent_sentinel.Prelude.{ℕ, String, Bool, true, false, none, some, [], ◌∷◌, ok, err, Error}
use osl_agent_sentinel.Prelude.Dict.{Dict}
use osl_agent_sentinel.Runtime.{Library}
use osl_agent_sentinel.Score.{Score, dec4}
use osl_agent_sentinel.Models.Value.{Value, no_fields, entry, str}
use osl_agent_sentinel.Models.Action.{Action, ActionType, ActionContext}
use osl_agent_sentinel.Models.Decision.{RiskFactor}
use osl_agent_sentinel.Models.Identity.{Identity, TrustTier}
use osl_agent_sentinel.Models.Policy.{RuleEffect, PolicyRule, PolicyBundle}
use osl_agent_sentinel.Breaker.{CircuitBreaker, open_state, new_breaker}
use osl_agent_sentinel.Identity.Resolver.{Store}
use osl_agent_sentinel.Identity.TrustScorer.{default_scorer}
use osl_agent_sentinel.Pipeline.Evaluate.{ClassifierFn, PipelineDeps, PipelineState, Reading}

abbrev pub library : Library
library = record {
  dumps = λ _. "{}";
  str_of = λ _. "value";
  str_of_error = λ _. "boom";
  parse_float = λ _. none;
  fixed2 = λ _. "0.00";
}

abbrev pub agent : Identity
agent = record {
  did = "did:web:agent";
  display_name = "agent";
  tenant_id = "default";
  public_key_jwk = [];
  public_key_b64 = none;
  capabilities = record { name = "http"; scope = "*"; expires_at = some 100 } ∷ [];
  tier = TrustTier.standard;
  trust_score = dec4 7500;
  parent_did = none;
  created_at = 0;
  updated_at = 0;
  revoked = false;
  metadata = [];
}

abbrev pub store : Store
store =
    ("did:web:agent", agent)
    ∷ ("did:web:gone", record agent { did = "did:web:gone"; revoked = true })
    ∷ []

abbrev pub context : ActionContext
context = record {
  session_id = "s";
  parent_action_id = none;
  correlation_id = none;
  tenant_id = "default";
  environment = "production";
  invoked_by = none;
  plan_id = none;
  step_index = none;
  tags = [];
}

abbrev pub action_of : ActionType → String → Action
action_of type did = record {
  id = "a1";
  type = type;
  agent_did = did;
  tenant_id = "default";
  tool = some "http.get";
  arguments = entry "url" (str "https://example.com") no_fields;
  payload_digest = none;
  intent = some "fetch a page";
  context = context;
  created_at = 0;
}

abbrev pub rule : String → RuleEffect → ℕ → Bool → Dict Value → PolicyRule
rule id effect priority enabled match = record {
  id = id;
  description = "";
  effect = effect;
  priority = priority;
  enabled = enabled;
  match = match;
  tags = [];
  rationale = none;
  owasp_ids = [];
}

abbrev pub no_payments : PolicyRule
no_payments = rule "no-payments" RuleEffect.deny 20 true (("action.type", str "payment") ∷ [])

abbrev pub slow_writes : PolicyRule
slow_writes =
    rule "slow-writes" RuleEffect.throttle 10 true (("action.type", str "file_write") ∷ [])

abbrev pub disabled_rule : PolicyRule
disabled_rule = rule "off" RuleEffect.deny 5 false []

abbrev pub bundle : PolicyBundle
bundle = record {
  version = "1";
  issued_at = 0;
  issuer = "test";
  bundle_id = "b";
  rules = no_payments ∷ disabled_rule ∷ slow_writes ∷ [];
  signature = none;
  tenant_id = none;
}

abbrev pub factor : String → Score → RiskFactor
factor code severity = record {
  code = code;
  severity = severity;
  detector = "test";
  message = "m";
  evidence = ("references", "R1,R2") ∷ [];
}

abbrev pub quiet : String × ClassifierFn (Unit {0})
quiet = ("Quiet", λ action identity w. (ok [], w))

abbrev pub risky : String × ClassifierFn (Unit {0})
risky = ("Risky", λ action identity w. (ok (factor "test.risk" (dec4 9000) ∷ []), w))

abbrev pub broken : String × ClassifierFn (Unit {0})
broken = ("Broken", λ action identity w. (err Error.raised, w))

-- The pipeline with one classifier given, the others quiet.
abbrev pub deps : String × ClassifierFn (Unit {0}) → PipelineDeps (Unit {0})
deps classifier = record {
  library = library;
  trust_scorer = default_scorer;
  intent_classifier = quiet;
  tool_validator = classifier;
  anomaly_detector = quiet;
  injection_detector = quiet;
  dlp_scanner = quiet;
}

abbrev pub breaker : CircuitBreaker
breaker = new_breaker "identity"

abbrev pub open_breaker : CircuitBreaker
open_breaker = record breaker { state = open_state; failures = 5; opened_at = 1000 }

abbrev pub state_with : CircuitBreaker → PipelineState (Unit {0})
state_with b = record { bundle = bundle; store = store; identity_breaker = b; world = tt }

abbrev pub reading : Reading
reading = record { now = 2000; later = 2001; stamp = record { id = "d1"; now = 7 }; elapsed_ms = 1 }
