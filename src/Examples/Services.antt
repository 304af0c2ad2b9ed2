-- ===== src/Examples/Services.antt =====
-- Approvals, the anomaly window and the client at concrete inputs.
use osl_agent_sentinel.Prelude.{
  ℕ, ◌≡◌, refl, true, false, none, some, [], ◌∷◌, string_eq, Outcome, ok, err, Error,
}
use osl_agent_sentinel.Prelude.Dict.{lookup, insert}
use osl_agent_sentinel.Score.{one}
use osl_agent_sentinel.Models.Action.{Action, ActionType}
use osl_agent_sentinel.Models.Decision.{DecisionVerdict, Decision, deny_decision}
use osl_agent_sentinel.Approval.{
  PendingApproval, ApprovalBackend, submit, enqueue_item, resolve_item,
}
use osl_agent_sentinel.Anomaly.{BaselineStore, Numerals, Observation}
use osl_agent_sentinel.Client.{
  RemoteConfig, remote, client_evaluate, allow_action, allow_action-true,
}
use osl_agent_sentinel.Examples.Data.{library, action_of, reading}

abbrev action : Action
action = action_of ActionType.payment "did:web:agent"

abbrev decision : Decision
unfolding deny_decision
decision = deny_decision reading.stamp "review" (some "a1") "" false

abbrev parked : PendingApproval × ApprovalBackend
unfolding submit enqueue_item insert
parked = submit [] "p1" 3 action decision

-- Denied by one reviewer, then allowed by another: the second verdict stays.
abbrev denied_first : ApprovalBackend
unfolding resolve_item lookup insert
denied_first = (resolve_item parked.1 4 "p1" DecisionVerdict.deny "ann" none).1

abbrev numerals : Numerals
numerals = record { log10_plus_one = λ n m. one; fixed3 = λ n m. "0.000"; str_of_count = λ n. "n" }

abbrev seen : ℕ → Observation
seen time = record { time = time; type = "payment"; tool = "http.get" }

abbrev store : BaselineStore
store = record {
  windows = ("did:web:agent", record { actions = seen 100 ∷ seen 250 ∷ []; horizon = 300 }) ∷ [];
  horizon = 300;
}

abbrev config : RemoteConfig
config = record {
  base_url = "https://sentinel.example";
  token = "t";
  tenant_id = "default";
  fail_closed = true;
}

-- A server that answers with the verdict of its state.
abbrev post : Action → DecisionVerdict → Outcome DecisionVerdict × DecisionVerdict
post _ v = (ok v, v)

abbrev parse : DecisionVerdict → Outcome Decision
parse v = ok (record decision { verdict = v })

unreachable-denied :
    (allow_action library parse
      (remote config (λ _ v. (err Error.raised, v)))
      reading.stamp
      action
      DecisionVerdict.allow).0
    ≡ ok false
unfolding allow_action client_evaluate deny_decision
unreachable-denied = refl

allow_action-true_example :
    (response : DecisionVerdict) × (d : Decision) × ((post action DecisionVerdict.allow).0
      ≡ ok response)
    × (parse response ≡ ok d)
    × (d.verdict ≡ DecisionVerdict.allow)
unfolding allow_action client_evaluate
allow_action-true_example =
    allow_action-true library parse config post reading.stamp action DecisionVerdict.allow refl
