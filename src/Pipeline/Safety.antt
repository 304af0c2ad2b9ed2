-- ===== src/Pipeline/Safety.antt =====
-- What an ALLOW of the pipeline guarantees, and what never leads to one.
use osl_agent_sentinel.Prelude.{
  ℕ, ◌<◌, ◌≡◌, ◌≢◌, ◌⊎◌, inl, inr, refl, sym, ap, subst, arith, String, Bool, true, false, Option,
  none, some, List, Option-cases, Outcome, Outcome-cases, ok-injective, ◌∙◌, ok, err,
}
use osl_agent_sentinel.Runtime.{Library}
use osl_agent_sentinel.Models.Action.{Action}
use osl_agent_sentinel.Models.Decision.{DecisionVerdict, verdict_eq, RiskFactor, Decision}
use osl_agent_sentinel.Models.Identity.{Identity}
use osl_agent_sentinel.Models.Policy.{RuleEffect}
use osl_agent_sentinel.Breaker.{CircuitBreaker, call}
use osl_agent_sentinel.Identity.Resolver.{resolve}
use osl_agent_sentinel.Identity.TrustScorer.{TrustScorer, adjust}
use osl_agent_sentinel.PolicyEngine
use osl_agent_sentinel.PolicyEngine.{RuleMatch}
use osl_agent_sentinel.Pipeline.Risk.{aggregate_risk}
use osl_agent_sentinel.Pipeline.Reconcile.{throttle_threshold, has_effect, reconcile}
use osl_agent_sentinel.Pipeline.Evaluate.{
  PipelineDeps, PipelineState, Reading, Resolution, resolution, gate, decide, is_read_only,
  is_observe, conclude, collect, classify_and_decide, after_lookup, evaluate, lookup_identity,
}

reconcile-allow :
    (py : Library) (ms : List RuleMatch) (factors : List RiskFactor) (identity : Option Identity)
    → (reconcile py ms factors identity).0 ≡ DecisionVerdict.allow
    → (identity ≢ none)
      × (has_effect RuleEffect.deny ms ≡ false)
      × (has_effect RuleEffect.escalate ms ≡ false)
      × (has_effect RuleEffect.throttle ms ≡ false)
      × (aggregate_risk factors < throttle_threshold)
unfolding reconcile
reconcile-allow py ms factors identity h = ground arith

gate-allow :
    (adjusted : Option Identity) (read_only : Bool) (v : DecisionVerdict) (summary : String)
    → (gate adjusted read_only v summary).0 ≡ DecisionVerdict.allow
    → (v ≡ DecisionVerdict.allow) × ((read_only ≡ true) ⊎ (is_observe adjusted ≡ false))
unfolding gate
gate-allow adjusted read_only v summary h = ground arith

-- All that must hold for an ALLOW of an action, given its risk factors and the matching rules.
pub record IsCleared (scorer : TrustScorer) (action : Action) (i : Identity)
    (factors : List RiskFactor) (ms : List RuleMatch) : Type 0 where
  pub not_denied : has_effect RuleEffect.deny ms ≡ false
  pub not_escalated : has_effect RuleEffect.escalate ms ≡ false
  pub not_throttled : has_effect RuleEffect.throttle ms ≡ false
  pub low_risk : aggregate_risk factors < throttle_threshold
  pub gated :
      (is_read_only action.type ≡ true)
      ⊎ (is_observe (adjust scorer (some i) factors DecisionVerdict.allow) ≡ false)

decide-allow :
    (py : Library) (scorer : TrustScorer) (reading : Reading) (action : Action) (found : Resolution)
    (factors : List RiskFactor) (ms : List RuleMatch)
    → (decide py scorer reading action found factors ms).verdict ≡ DecisionVerdict.allow
    → (i : Identity) × (found.identity ≡ some i) × IsCleared scorer action i factors ms
unfolding decide
decide-allow py scorer reading action found factors ms h =
    let (v, summary, ids) = reconcile py ms factors found.identity in
    let (passed, gated) =
      gate-allow (adjust scorer found.identity factors v) (is_read_only action.type) v summary h in
    let (known, deny, escalate, throttle, low) =
      reconcile-allow py ms factors found.identity passed in
    elim (Option-cases found.identity) [
      | inl unknown ↦ absurd (known unknown)
      | inr (i, e) ↦ (
        i,
        e,
        record {
          not_denied = deny;
          not_escalated = escalate;
          not_throttled = throttle;
          low_risk = low;
          gated =
              subst
                (λ o.
                  (is_read_only action.type ≡ true)
                  ⊎ (is_observe (adjust scorer o factors DecisionVerdict.allow) ≡ false))
                e
                (subst
                  (λ w.
                    (is_read_only action.type ≡ true)
                    ⊎ (is_observe (adjust scorer found.identity factors w) ≡ false))
                  passed gated);
        },
      )
    ]

-- The lookup hands out what the store resolves to.
call-ok {ℓ} :
    {A W : Type ℓ} (now later : ℕ) (fn : W → Outcome A × W) (b : CircuitBreaker) (w : W) (a : A)
    → (call now later fn b w).0 ≡ ok a
    → (fn w).0 ≡ ok a
unfolding call
call-ok now later fn b w a h = ground arith

resolution-some :
    (o : Outcome Identity) (found : Resolution) (i : Identity)
    → resolution o ≡ ok found
    → found.identity ≡ some i
    → o ≡ ok i
resolution-some (ok j) found i h e = ground arith
resolution-some (err x) found i h e = ground arith

pub conclude-ok :
    (py : Library) (scorer : TrustScorer) (reading : Reading) (action : Action) (found : Resolution)
    (factors : List RiskFactor) (o : Outcome (List RuleMatch)) (dec : Decision)
    → conclude py scorer reading action found factors o ≡ ok dec
    → (ms : List RuleMatch) × (o ≡ ok ms) × (decide py scorer reading action found factors ms ≡ dec)
conclude-ok py scorer reading action found factors (ok ms) dec h = (ms, refl, ok-injective h)
conclude-ok py scorer reading action found factors (err e) dec h = cc

-- The identity of an ALLOW with these risk factors, the rules that matched, and what held of them.
abbrev pub AllowedWith :
    {W : Type 0} → PipelineDeps W → Action → PipelineState W → List RiskFactor → Type 0
AllowedWith d action s factors =
    (i : Identity) × (ms : List RuleMatch) × (resolve s.store action.agent_did ≡ ok i)
    × (PolicyEngine.evaluate d.library s.bundle action (some i) factors ≡ ok ms)
    × IsCleared d.trust_scorer action i factors ms

abbrev pub Allowed : {W : Type 0} → PipelineDeps W → Action → PipelineState W → Decision → Type 0
Allowed d action s dec = AllowedWith d action s dec.explanation.risk_factors

pub risk_factors-decide :
    (py : Library) (scorer : TrustScorer) (reading : Reading) (action : Action) (found : Resolution)
    (factors : List RiskFactor) (ms : List RuleMatch)
    → (decide py scorer reading action found factors ms).explanation.risk_factors ≡ factors
unfolding decide
risk_factors-decide py scorer reading action found factors ms = refl

module _ {W : Type 0} (d : PipelineDeps W) (reading : Reading) (action : Action) where
  classify_and_decide-allow :
      (found : Resolution) (s : PipelineState W) (dec : Decision)
      → (classify_and_decide d reading action found s).0 ≡ ok dec
      → dec.verdict ≡ DecisionVerdict.allow
      → (i : Identity) × (ms : List RuleMatch) × (found.identity ≡ some i)
        × (PolicyEngine.evaluate d.library s.bundle action (some i) dec.explanation.risk_factors
            ≡ ok ms)
        × IsCleared d.trust_scorer action i dec.explanation.risk_factors ms
  unfolding classify_and_decide
  classify_and_decide-allow found s dec h v =
      let factors = (collect d action found s.world).0 in
      let (ms, matched, e) =
        conclude-ok d.library d.trust_scorer reading action found factors
          (PolicyEngine.evaluate d.library s.bundle action found.identity factors) dec h in
      let same : factors ≡ dec.explanation.risk_factors =
        sym (risk_factors-decide d.library d.trust_scorer reading action found factors ms)
        ∙ ap (λ (x : Decision). x.explanation.risk_factors) e in
      let (i, known, cleared) =
        decide-allow d.library d.trust_scorer reading action found factors ms
          (ap (λ (x : Decision). x.verdict) e ∙ v) in
      (
        i,
        ms,
        known,
        subst (λ fs. PolicyEngine.evaluate d.library s.bundle action (some i) fs ≡ ok ms) same
            (subst (λ o. PolicyEngine.evaluate d.library s.bundle action o factors ≡ ok ms) known
              matched),
        subst (λ fs. IsCleared d.trust_scorer action i fs ms) same cleared,
      )

  pub after_lookup-allow :
      (s : PipelineState W) (o : Outcome Identity) (dec : Decision)
      → (after_lookup d reading action s (resolution o)).0 ≡ ok dec
      → dec.verdict ≡ DecisionVerdict.allow
      → (i : Identity) × (ms : List RuleMatch) × (o ≡ ok i)
        × (PolicyEngine.evaluate d.library s.bundle action (some i) dec.explanation.risk_factors
            ≡ ok ms)
        × IsCleared d.trust_scorer action i dec.explanation.risk_factors ms
  after_lookup-allow s o dec h v = elim (Outcome-cases (resolution o)) [
    | inl (found, e) ↦
        let (i, ms, known, matched, cleared) =
          classify_and_decide-allow found s dec
            (subst (λ r. (after_lookup d reading action s r).0 ≡ ok dec) e h) v in
        (i, ms, resolution-some o found i e known, matched, cleared)
    | inr (x, e) ↦
        let impossible : err x ≡ ok dec =
          subst (λ r. (after_lookup d reading action s r).0 ≡ ok dec) e h in
        cc
  ]

  -- An ALLOW is only given to an action of a known, unrevoked identity, where no matching rule
  -- denies, escalates or throttles, the aggregate risk is below 0.35, and the action is read-only or
  -- the identity is not demoted to OBSERVE.
  pub evaluate-allow :
      (s : PipelineState W) (dec : Decision)
      → (evaluate d reading action s).0 ≡ ok dec
      → dec.verdict ≡ DecisionVerdict.allow
      → Allowed d action s dec
  unfolding evaluate
  evaluate-allow s dec h v =
      let (found, breaker, _) = lookup_identity reading action s in
      let (i, ms, known, matched, cleared) =
        after_lookup-allow (record s { identity_breaker = breaker }) found dec h v in
      (
        i,
        ms,
        call-ok reading.now reading.later (λ (u : Unit {0}). (resolve s.store action.agent_did, u))
            s.identity_breaker tt i known,
        matched,
        cleared,
      )
