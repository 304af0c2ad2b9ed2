-- ===== src/Examples/Bootstrap.antt =====
-- The default deployment at a concrete input: an agent that is known, and a payload with a key.

use mathlib.Core.List.{Memᴰ}
use osl_agent_sentinel.Prelude.{
  [], ◌∷◌, ◌≡◌, ◌≢◌, refl, arith, inl, none, some, false, Outcome, err, ◌==◌, string_eq,
  if◌then◌else◌, ok,
}
use osl_agent_sentinel.Prelude.Dict.{lookup}
use osl_agent_sentinel.Score.{one, dec4, round4}
use osl_agent_sentinel.Models.Value.{str, no_fields, entry}
use osl_agent_sentinel.Models.Action.{Action, ActionType}
use osl_agent_sentinel.Models.Decision.{Decision, DecisionVerdict, deny_decision}
use osl_agent_sentinel.Models.Texts.{iter_text}
use osl_agent_sentinel.Models.Value.{eq_value}
use osl_agent_sentinel.Models.Action.{type_value}
use osl_agent_sentinel.Models.Policy.{by_priority}
use osl_agent_sentinel.Breaker.{call}
use osl_agent_sentinel.Identity.Resolver.{resolve}
use osl_agent_sentinel.Identity.TrustScorer.{adjust}
use osl_agent_sentinel.PolicyEngine
use osl_agent_sentinel.PolicyEngine.{matches}
use osl_agent_sentinel.Pipeline.Risk.{aggregate_risk}
use osl_agent_sentinel.Pipeline.Reconcile.{reconcile}
use osl_agent_sentinel.Anomaly.{score}
use osl_agent_sentinel.Injection.{scan_injection}
use osl_agent_sentinel.Intent.{classify_intent}
use osl_agent_sentinel.Dlp.{DlpRule, dlp_rule, redact, scan_payload}
use osl_agent_sentinel.ToolValidator.{valid, validate}
use osl_agent_sentinel.Pipeline.Evaluate.{
  PipelineState, evaluate, collect, decide, error_factor, unknown_factor,
}
use osl_agent_sentinel.Bootstrap.{Environment, World, default_deps, initial_state}
use osl_agent_sentinel.Bootstrap.Blocks.{evaluate-Blocks}
use osl_agent_sentinel.Interceptor
use osl_agent_sentinel.Interceptor.{Interceptor, stamped}
use osl_agent_sentinel.RedTeam.{RedTeamScenario, RedTeamReport, run}
use osl_agent_sentinel.RedTeam.Vacuous.{run-no_identity}
use osl_agent_sentinel.Examples.Data.{
  library, deps, quiet, breaker, state_with, bundle, store, action_of, reading,
}

-- A search that finds a key in one text.
abbrev env : Environment
env = record {
  library = library;
  search = λ pattern text.
      if text == "AKIA0123456789ABCDEF"
      then (if pattern == "\\bAKIA[0-9A-Z]{16}\\b" then some text else none)
      else none;
  jsonschema_validate = λ args schema. valid;
  intent_texts = record { strip = λ s. s; lower = λ s. s; fixed3 = λ o. "0.000" };
  injection_numerals = record { str_of_count = λ n. "1"; fixed3 = λ s. "0.000" };
  numerals = record {
    log10_plus_one = λ n m. one;
    fixed3 = λ n m. "0.000";
    str_of_count = λ n. "n";
  };
  now = 500;
}

abbrev action : Action
action = record (action_of ActionType.payment "did:web:agent") {
  arguments = entry "note" (str "AKIA0123456789ABCDEF") no_fields;
  intent = none;
  tool = none;
}

abbrev state : PipelineState World
state = record (initial_state bundle) { store = store }

abbrev decision_or : Decision → Outcome Decision → Decision
decision_or d (ok dec) = dec
decision_or d (err e) = d

abbrev aws_rule : DlpRule
aws_rule =
    dlp_rule "dlp.aws_access_key" "\\bAKIA[0-9A-Z]{16}\\b" (dec4 9_500)
      "AWS access key identifier detected in payload."

-- One evaluation; its line opens what it computes with.
abbrev decision : Decision
decision =
    decision_or (deny_decision reading.stamp "" none "" false)
      (evaluate (default_deps env) reading action state).0

evaluated : (evaluate (default_deps env) reading action state).0 ≡ ok decision
unfolding evaluate decide call collect resolve lookup PolicyEngine.evaluate by_priority matches
    eq_value type_value reconcile aggregate_risk adjust round4 unknown_factor error_factor
    default_deps initial_state classify_intent validate score scan_injection scan_payload iter_text
    redact
evaluated = refl

evaluate-Blocks_example : decision.verdict ≢ DecisionVerdict.allow
unfolding iter_text
evaluate-Blocks_example =
    evaluate-Blocks env reading action state decision "AKIA0123456789ABCDEF" evaluated
      (Memᴰ.head refl) (inl (aws_rule, "AKIA0123456789ABCDEF", Memᴰ.head refl, omega arith, refl))

-- A run of one scenario against an interceptor that knows no identity.
abbrev interceptor : Interceptor (Unit {0}) (Unit {0})
interceptor = record {
  deps = deps quiet;
  sha256_hex = λ a. "digest";
  policy_loader = none;
  audit_backend = none;
  approval_workflow = none;
}

abbrev nobody : PipelineState (Unit {0})
nobody = record (state_with breaker) { store = [] }

abbrev hijack : RedTeamScenario
hijack = record {
  name = "goal_hijack";
  category = "OWASP-AGENT-01";
  expected_verdict = DecisionVerdict.deny;
  action = action_of ActionType.file_read "did:redteam:test";
  references = "";
}

abbrev passed : RedTeamReport
passed = record { total = 1; passed = 1; false_negatives = []; false_positives = [] }

run-no_identity_example : passed.false_negatives ≡ []
unfolding evaluate decide call collect resolve lookup PolicyEngine.evaluate by_priority matches
    eq_value type_value reconcile aggregate_risk adjust round4 unknown_factor error_factor run
    Interceptor.evaluate stamped
run-no_identity_example =
    run-no_identity interceptor (λ a s. reading) 1 (hijack ∷ []) nobody passed refl refl
