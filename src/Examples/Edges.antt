-- ===== src/Examples/Edges.antt =====
-- The edges of the program at concrete inputs: the gateway, the rate limit, safe mode, the red-team
-- run and the exporter.
use osl_agent_sentinel.Prelude.{
  ℕ, ◌+◌, ◌-◌, ◌*◌, ◌≤◌, ◌≡◌, ◌≢◌, refl, arith, String, false, none, some, List, [], ◌∷◌, ◌++◌,
  length, inl, inr, Bool-cases, leb, if◌then◌else◌, Outcome, ok, err, Error,
}
use osl_agent_sentinel.Prelude.Dict.{lookup, insert}
use osl_agent_sentinel.Score.{round4}
use osl_agent_sentinel.Models.Value.{eq_value}
use osl_agent_sentinel.Models.Action.{Action, ActionType, Fresh, new_action, type_value}
use osl_agent_sentinel.Models.Decision.{DecisionVerdict, Decision, deny_decision}
use osl_agent_sentinel.Breaker.{call}
use osl_agent_sentinel.Identity.Resolver.{resolve}
use osl_agent_sentinel.Identity.TrustScorer.{adjust}
use osl_agent_sentinel.PolicyEngine
use osl_agent_sentinel.PolicyEngine.{matches}
use osl_agent_sentinel.Models.Policy.{by_priority}
use osl_agent_sentinel.Pipeline.Risk.{aggregate_risk}
use osl_agent_sentinel.Pipeline.Reconcile.{reconcile}
use mathlib.Core.List.{cons≢nil}
use osl_agent_sentinel.Pipeline.Evaluate.{
  PipelineState, evaluate, decide, collect, unknown_factor, error_factor,
}
use osl_agent_sentinel.Interceptor.{evaluate as intercept}
use osl_agent_sentinel.Gateway.{
  ToolHandler, ToolCall, McpGateway, Invoked, action_for, decision_on, invoke,
}
use osl_agent_sentinel.Gateway.Safety.{Cleared, invoke-changed}
use osl_agent_sentinel.RateLimit.{dispatch, take_token, token, TenantRateLimit, Request}
use osl_agent_sentinel.RateLimit.Budget.{passes, passes-new}
use osl_agent_sentinel.RedTeam.{RedTeamScenario, RedTeamReport}
use osl_agent_sentinel.Siem.{Transport, Exporter, enqueue_all, flush}
use osl_agent_sentinel.Siem.Delivery.{IsHonest, Delivers, flush-Delivers}
use osl_agent_sentinel.Examples.Data.{action_of, quiet, deps, breaker, state_with, reading}

-- A tool that notes that it has run.
abbrev noting : ToolHandler (List String) String
noting tool args log = (ok "done", log ++ tool ∷ [])

abbrev gateway : McpGateway (Unit {0}) (Unit {0}) (List String) String
gateway = record {
  interceptor = record {
    deps = deps quiet;
    sha256_hex = λ _. "digest";
    policy_loader = none;
    audit_backend = none;
    approval_workflow = none;
  };
  handler = some noting;
}

abbrev fresh : Fresh
fresh = record { id = "a9"; session_id = "s9"; now = 9 }

abbrev by : String → ToolCall
by did = record {
  tool = "http.get";
  args = none;
  principal_did = some "";
  agent_did = some did;
  tenant_id = "default";
  intent = none;
}

abbrev start : PipelineState (Unit {0})
start = state_with breaker

-- One call through the gateway; its line opens what an evaluation computes with.
invoked : String → Invoked String × PipelineState (Unit {0}) × List String
unfolding invoke action_for decision_on intercept evaluate decide call collect resolve lookup
    PolicyEngine.evaluate by_priority matches eq_value type_value reconcile aggregate_risk adjust
    round4 new_action unknown_factor error_factor
invoked did = invoke gateway fresh reading 5 (by did) none (start, [])

invoked-agent : (invoked "did:web:agent").2 ≡ "http.get" ∷ []
unfolding invoked
invoked-agent = refl

ran : (invoke gateway fresh reading 5 (by "did:web:agent") none (start, [])).2 ≢ []
unfolding invoked
ran e = absurd (cons≢nil e)

invoke-changed_example : Cleared gateway fresh reading 5 (by "did:web:agent") none start []
invoke-changed_example =
    invoke-changed gateway fresh reading 5 (by "did:web:agent") none start [] ran

abbrev escalated : Decision
escalated = elim (decision_on gateway reading 5 (action_for fresh (by "did:web:nobody")) start).0 [
  | ok dec ↦ dec
  | err _ ↦ deny_decision reading.stamp "" none "" false
]

abbrev limit : TenantRateLimit
limit = record { rpm = 60; burst = 2; buckets = [] }

abbrev at_time : String → ℕ → Request
at_time tenant now = record { tenant_header = some tenant; opened = now; now = now }

-- Three requests at once, then one a second later; another tenant in between.
abbrev requests : List Request
requests =
    at_time "a" 5 ∷ at_time "a" 6 ∷ at_time "b" 6 ∷ at_time "a" 7 ∷ at_time "a" 1_000_006 ∷ []

passes-requests : passes "a" limit requests ≡ 3
unfolding passes dispatch take_token lookup insert
passes-requests = refl

passes-new_example :
    passes "a" limit requests * token ≤ limit.burst * token + (1_000_010 - 5) * limit.rpm
unfolding lookup
passes-new_example = passes-new "a" limit requests 5 1_000_010 refl (omega arith)

-- An interceptor that denies every action.
abbrev denying : Action → Unit {0} → Outcome Decision × Unit {0}
denying action u = (ok (deny_decision reading.stamp "no" (some action.id) "" false), u)

abbrev scenario : String → DecisionVerdict → RedTeamScenario
scenario name expected = record {
  name = name;
  category = "OWASP-AGENT-01";
  expected_verdict = expected;
  action = action_of ActionType.payment "did:web:agent";
  references = "";
}

abbrev scenarios : List RedTeamScenario
scenarios =
    scenario "attack" DecisionVerdict.deny
    ∷ scenario "spike" DecisionVerdict.throttle
    ∷ scenario "benign" DecisionVerdict.allow
    ∷ []

abbrev report : RedTeamReport
report = record { total = 3; passed = 2; false_negatives = []; false_positives = "benign" ∷ [] }

-- A transport that fails once the log has two lines or more.
abbrev short : Transport (List String)
short batch log =
    if leb 2 (length log) then (err Error.runtime_error, log) else (ok tt, log ++ batch)

short-IsHonest : IsHonest short (λ log. log)
short-IsHonest batch log = elim (Bool-cases (leb 2 (length log))) [
  | inl full ↦ inr (Error.runtime_error, rw full refl, rw full refl)
  | inr room ↦ inl (rw room refl, rw room refl)
]

abbrev exporter : Exporter
exporter = record { max_outbox = 10; batch_size = 2; outbox = "1" ∷ "2" ∷ "3" ∷ "4" ∷ "5" ∷ [] }

flush-loses :
    flush short [] exporter []
    ≡ (err Error.runtime_error, record exporter { outbox = "5" ∷ [] }, "1" ∷ "2" ∷ [])
unfolding flush enqueue_all
flush-loses = refl

flush-Delivers_example :
    Delivers short
      (λ log. log)
      short-IsHonest
      2
      ("1" ∷ "2" ∷ "3" ∷ "4" ∷ "5" ∷ [])
      (flush short [] exporter [])
flush-Delivers_example = flush-Delivers short (λ log. log) short-IsHonest exporter [] (omega arith)
