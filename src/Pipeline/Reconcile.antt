-- ===== src/Pipeline/Reconcile.antt =====
-- `DecisionPipeline._reconcile` of sentinel/core/pipeline.py.
use osl_agent_sentinel.Prelude.{
  String, Bool, Option, none, some, List, [], ◌∷◌, map, any, leb, ◌==◌, if◌then◌else◌,
}
use osl_agent_sentinel.Prelude.Text.{concat, join}
use osl_agent_sentinel.Runtime.{Library}
use osl_agent_sentinel.Score.{Score, dec4}
use osl_agent_sentinel.Models.Decision.{DecisionVerdict, RiskFactor}
use osl_agent_sentinel.Models.Identity.{Identity}
use osl_agent_sentinel.Models.Policy.{RuleEffect, effect_eq}
use osl_agent_sentinel.PolicyEngine.{RuleMatch}
use osl_agent_sentinel.Pipeline.Risk.{aggregate_risk}

abbrev pub deny_threshold : Score
deny_threshold = dec4 8500

abbrev pub escalate_threshold : Score
escalate_threshold = dec4 5500

abbrev pub throttle_threshold : Score
throttle_threshold = dec4 3500

abbrev pub rule_ids : List RuleMatch → List String
rule_ids = map (λ (m : RuleMatch). m.rule.id)

-- `effect in {m.effect for m in matches}`
abbrev pub has_effect : RuleEffect → List RuleMatch → Bool
has_effect e = any (λ (m : RuleMatch). m.effect == e)

by_rules : String → List RuleMatch → String
by_rules prefix matches = concat (prefix ∷ join ", " (rule_ids matches) ∷ [])

over : Library → Score → String → String
over py score which =
    concat ("Aggregate risk score " ∷ py.fixed2 score ∷ " exceeded " ∷ which ∷ " threshold." ∷ [])

-- The verdict and the summary where no matching rule denies, escalates or throttles.
unfoldable pub reconcile_risk : Library → Score → Option Identity → DecisionVerdict × String
unfolding over
reconcile_risk py score identity =
    if leb deny_threshold score
    then (DecisionVerdict.deny, over py score "deny")
    else if leb escalate_threshold score
    then (DecisionVerdict.escalate, over py score "escalate")
    else if leb throttle_threshold score
    then (DecisionVerdict.throttle, over py score "throttle")
    else elim identity [
      | none ↦ (DecisionVerdict.escalate, "Agent identity unresolved; escalating.")
      | some _ ↦ (DecisionVerdict.allow, "Action passed all sentinel checks.")
    ]

unfoldable pub reconcile :
    Library
    → List RuleMatch
    → List RiskFactor
    → Option Identity
    → DecisionVerdict × String × List String
unfolding by_rules reconcile_risk
reconcile py matches factors identity =
    let ids = rule_ids matches in
    if has_effect RuleEffect.deny matches
    then (DecisionVerdict.deny, by_rules "Action denied by policy rule(s): " matches, ids)
    else if has_effect RuleEffect.escalate matches
    then (
      DecisionVerdict.escalate,
      by_rules "Action escalated to human review by policy rule(s): " matches,
      ids,
    )
    else if has_effect RuleEffect.throttle matches
    then (DecisionVerdict.throttle, by_rules "Action throttled by policy rule(s): " matches, ids)
    else (let (verdict, summary) = reconcile_risk py (aggregate_risk factors) identity in
        (verdict, summary, ids))
