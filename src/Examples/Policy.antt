-- ===== src/Examples/Policy.antt =====
-- The policy engine at concrete inputs.
use osl_agent_sentinel.Prelude.{◌≡◌, refl, some, [], ◌∷◌}
use osl_agent_sentinel.Models.Action.{ActionType, type_value}
use osl_agent_sentinel.Models.Policy.{RuleEffect, by_priority}
use osl_agent_sentinel.PolicyEngine.{matches, evaluate}
use osl_agent_sentinel.PolicyEngine.Order.{AreMatchesOf, passed, evaluate-ok}
use osl_agent_sentinel.Prelude.Dict.{lookup}
use osl_agent_sentinel.Models.Value.{eq_value}
use osl_agent_sentinel.Examples.Data.{library, agent, action_of, bundle, slow_writes, no_payments}

by_priority-bundle : by_priority bundle ≡ slow_writes ∷ no_payments ∷ []
unfolding by_priority
by_priority-bundle = refl

evaluate-ok_example :
    AreMatchesOf
      (λ r.
        passed
          (matches library r.match (action_of ActionType.payment "did:web:agent") (some agent) []))
      bundle
      no_payments.priority
      (record { rule = no_payments; effect = RuleEffect.deny } ∷ [])
unfolding evaluate by_priority matches lookup eq_value type_value
evaluate-ok_example =
    evaluate-ok library bundle (action_of ActionType.payment "did:web:agent") (some agent) []
      (record { rule = no_payments; effect = RuleEffect.deny } ∷ []) no_payments.priority refl
