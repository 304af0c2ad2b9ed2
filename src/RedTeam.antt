-- ===== src/RedTeam.antt =====
-- sentinel/redteam/harness.py. The interceptor is a parameter: it answers an action from a state.
pub mod Counts
pub mod Scenarios
pub mod Vacuous
use osl_agent_sentinel.Prelude.{
  ℕ, ◌+◌, String, Bool, true, false, not, ◌&&◌, List, [], ◌∷◌, ◌++◌, contains, ◌==◌, if◌then◌else◌,
  Outcome, ok, err,
}
use osl_agent_sentinel.Models.Action.{Action}
use osl_agent_sentinel.Models.Decision.{
  DecisionVerdict, allow, deny, escalate, throttle, verdict_eq, Decision,
}

pub record RedTeamScenario : Type 0 where
  pub name : String
  pub category : String
  pub expected_verdict : DecisionVerdict
  pub action : Action
  pub references : String

pub record RedTeamReport : Type 0 where
  pub total : ℕ
  pub passed : ℕ
  pub false_negatives : List String
  pub false_positives : List String

-- `RedTeamReport()`
abbrev pub new_report : RedTeamReport
new_report = record { total = 0; passed = 0; false_negatives = []; false_positives = [] }

-- The tests of `run` on one decision, after `report.total += 1`.
abbrev pub judge : RedTeamScenario → DecisionVerdict → RedTeamReport → RedTeamReport
judge scenario verdict report =
    if verdict == scenario.expected_verdict
    then record report { passed = report.passed + 1 }
    else if contains (deny ∷ escalate ∷ throttle ∷ []) scenario.expected_verdict
        && (verdict == allow)
    then record report { false_negatives = report.false_negatives ++ scenario.name ∷ [] }
    else if (scenario.expected_verdict == allow) && not (verdict == allow)
    then record report { false_positives = report.false_positives ++ scenario.name ∷ [] }
    else record report { passed = report.passed + 1 }

module _ {S : Type 0} (evaluate : Action → S → Outcome Decision × S) where
  -- One round of `run`: an exception of the interceptor ends it.
  abbrev pub judged : RedTeamScenario → RedTeamReport → Outcome Decision → Outcome RedTeamReport
  judged scenario report (ok decision) =
      ok (judge scenario decision.verdict (record report { total = report.total + 1 }))
  judged scenario report (err e) = err e

  unfoldable pub run_from : List RedTeamScenario → RedTeamReport → S → Outcome RedTeamReport × S
  run_from [] report s = (ok report, s)
  run_from (scenario ∷ scenarios) report s =
      let (answer, s') = evaluate scenario.action s in
      elim (judged scenario report answer) [
        | ok report' ↦ run_from scenarios report' s'
        | err e ↦ (err e, s')
      ]

  unfoldable pub run : List RedTeamScenario → S → Outcome RedTeamReport × S
  unfolding run_from
  run scenarios s = run_from scenarios new_report s
