-- ===== src/Examples/Pipeline.antt =====
-- The pipeline at concrete inputs.
use osl_agent_sentinel.Prelude.{
  ◌*◌, ◌≤◌, ◌≡◌, ◌≢◌, refl, arith, String, false, some, List, [], ◌∷◌, Outcome, ok, err, Error,
}
use osl_agent_sentinel.Prelude.Dict.{lookup}
use osl_agent_sentinel.Score.{dec4, round_half_even, round4}
use osl_agent_sentinel.Models.Value.{eq_value}
use osl_agent_sentinel.Models.Action.{ActionType, type_value}
use osl_agent_sentinel.Models.Decision.{DecisionVerdict, Decision}
use osl_agent_sentinel.Models.Policy.{RuleEffect, by_priority}
use osl_agent_sentinel.Breaker.{call}
use osl_agent_sentinel.Breaker.Calls.{repeat_call}
use osl_agent_sentinel.Identity.Resolver.{get, resolve}
use osl_agent_sentinel.Identity.TrustScorer.{default_scorer, adjust}
use osl_agent_sentinel.PolicyEngine
use osl_agent_sentinel.PolicyEngine.{RuleMatch, matches}
use osl_agent_sentinel.Pipeline.Risk.{aggregate_risk}
use osl_agent_sentinel.Pipeline.Risk.Floor.{aggregate_risk-floor}
use osl_agent_sentinel.Pipeline.Reconcile.{reconcile}
use osl_agent_sentinel.Pipeline.Evaluate.{
  PipelineState, collect, decide, evaluate, lookup_identity, error_factor, unknown_factor,
  Resolution,
}
use osl_agent_sentinel.Pipeline.Safety.{Allowed, evaluate-allow}
use osl_agent_sentinel.Pipeline.Refusals.{
  verdict_rank, decide-rank, evaluate-degraded, evaluate-some_raises, is_refused,
}
use osl_agent_sentinel.Pipeline.Denial.{lookup_fn, unknown_dids_trip}
use osl_agent_sentinel.Examples.Data.{
  agent, store, library, action_of, slow_writes, factor, quiet, risky, broken, deps, breaker,
  open_breaker, state_with, reading,
}

-- 1 - 0.5 * 0.4 * 0.75
aggregate_three :
    aggregate_risk (factor "a" (dec4 5000) ∷ factor "b" (dec4 6000) ∷ factor "c" (dec4 2500) ∷ [])
    ≡ dec4 8500
unfolding aggregate_risk round_half_even
aggregate_three = refl

aggregate_risk-floor_example :
    dec4 6000 ≤ aggregate_risk (factor "a" (dec4 5000) ∷ factor "b" (dec4 6000) ∷ [])
aggregate_risk-floor_example =
    aggregate_risk-floor 6000 (factor "a" (dec4 5000) ∷ factor "b" (dec4 6000) ∷ []) (omega arith)
      refl

-- The decision of a run that ends in one.
abbrev decision_or : Decision → Outcome Decision → Decision
decision_or d (ok dec) = dec
decision_or d (err e) = d

abbrev found_agent : Resolution
found_agent = record { identity = some agent; degraded = false; identity_unknown = false }

-- A decision made on nothing, to fill the case that a run does not reach.
abbrev default_decision : Decision
default_decision =
    decide library default_scorer reading (action_of ActionType.file_read "did:web:agent")
      found_agent [] []

-- One evaluation with quiet classifiers; its line opens what an evaluation computes with.
run : PipelineState (Unit {0}) → ActionType → String → Outcome Decision
unfolding evaluate decide call collect resolve lookup PolicyEngine.evaluate by_priority matches
    eq_value type_value reconcile aggregate_risk adjust round4 unknown_factor error_factor
run s type did = (evaluate (deps quiet) reading (action_of type did) s).0

abbrev clean : Decision
clean =
    decision_or default_decision (run (state_with breaker) ActionType.http_request "did:web:agent")

clean_verdict : clean.verdict ≡ DecisionVerdict.allow
unfolding run
clean_verdict = refl

evaluate-allow_example :
    Allowed
      (deps quiet)
      (action_of ActionType.http_request "did:web:agent")
      (state_with breaker)
      clean
unfolding run
evaluate-allow_example =
    evaluate-allow (deps quiet) reading (action_of ActionType.http_request "did:web:agent")
      (state_with breaker) clean refl refl

payment_denied :
    (decision_or default_decision
      (run (state_with breaker) ActionType.payment "did:web:agent")).verdict
    ≡ DecisionVerdict.deny
unfolding run
payment_denied = refl

unknown_escalated :
    (decision_or default_decision
      (run (state_with breaker) ActionType.file_read "did:web:nobody")).verdict
    ≡ DecisionVerdict.escalate
unfolding run
unknown_escalated = refl

abbrev throttled : List RuleMatch
throttled = record { rule = slow_writes; effect = RuleEffect.throttle } ∷ []

decide-rank_example :
    1
    ≤ verdict_rank
        (decide library default_scorer reading
          (action_of ActionType.file_write "did:web:agent")
          found_agent
          []
          throttled).verdict
decide-rank_example =
    decide-rank library default_scorer reading (action_of ActionType.file_write "did:web:agent")
      found_agent [] throttled RuleEffect.throttle refl

abbrev severe : Decision
severe =
    decision_or default_decision
      (evaluate (deps risky) reading (action_of ActionType.http_request "did:web:agent")
        (state_with breaker)).0

abbrev failed : Decision
failed =
    decision_or default_decision
      (evaluate (deps broken) reading (action_of ActionType.http_request "did:web:agent")
        (state_with breaker)).0

evaluate-some_raises_example : failed.verdict ≢ DecisionVerdict.allow
unfolding run
evaluate-some_raises_example =
    evaluate-some_raises (deps broken) reading (action_of ActionType.http_request "did:web:agent")
      (state_with breaker) failed found_agent refl refl refl

abbrev degraded : Decision
degraded =
    decision_or default_decision
      (run (state_with open_breaker) ActionType.http_request "did:web:agent")

evaluate-degraded_example :
    degraded.degraded
    ≡ is_refused
        (lookup_identity reading
          (action_of ActionType.http_request "did:web:agent")
          (state_with open_breaker)).0
unfolding run
evaluate-degraded_example =
    evaluate-degraded (deps quiet) reading (action_of ActionType.http_request "did:web:agent")
      (state_with open_breaker) degraded refl

unknown_dids_trip_example :
    (lookup_identity reading (action_of ActionType.http_request "did:web:agent") (
      state_with
        (repeat_call (λ n. n * 10) (lookup_fn store "did:web:nobody") 5 (breaker, tt)).0)).0
    ≡ err Error.dependency_unavailable
unfolding get lookup
unknown_dids_trip_example =
    unknown_dids_trip (λ n. n * 10) "did:web:nobody" 4 (state_with breaker) reading
      (action_of ActionType.http_request "did:web:agent") refl refl refl refl (omega arith)
