-- ===== src/Pipeline/Refusals.antt =====
-- What keeps an action from being allowed, and what an evaluation leaves alone.
use osl_agent_sentinel.Prelude.{
  ℕ, ◌≤◌, ◌≡◌, ◌≢◌, sym, ap, subst, ◌∙◌, arith, String, Bool, true, false, ◌||◌, Option, List, [],
  ◌∷◌, ◌++◌, any-append, leb, Outcome, ok, err, Error, if◌then◌else◌,
}
use osl_agent_sentinel.Runtime.{Library}
use osl_agent_sentinel.Score.{dec4}
use osl_agent_sentinel.Models.Action.{Action}
use osl_agent_sentinel.Models.Decision.{DecisionVerdict, RiskFactor, Decision}
use osl_agent_sentinel.Models.Identity.{Identity}
use osl_agent_sentinel.Models.Policy.{RuleEffect}
use osl_agent_sentinel.Identity.TrustScorer.{TrustScorer}
use osl_agent_sentinel.PolicyEngine
use osl_agent_sentinel.PolicyEngine.{RuleMatch}
use osl_agent_sentinel.Pipeline.Risk.Floor.{has_severity, aggregate_risk-floor}
use osl_agent_sentinel.Pipeline.Reconcile.{has_effect, reconcile}
use osl_agent_sentinel.Pipeline.Evaluate.{
  ClassifierFn, PipelineDeps, PipelineState, Reading, Resolution, resolution, error_factor, caught,
  gather, classifiers, unknown_factor, gate, decide, collect, classify_and_decide, after_lookup,
  lookup_identity, evaluate,
}
use osl_agent_sentinel.Pipeline.Safety.{
  conclude-ok, after_lookup-allow, evaluate-allow, risk_factors-decide,
}

-- How restrictive a verdict and an effect are.
abbrev pub verdict_rank : DecisionVerdict → ℕ
verdict_rank DecisionVerdict.allow = 0
verdict_rank DecisionVerdict.throttle = 1
verdict_rank DecisionVerdict.escalate = 2
verdict_rank DecisionVerdict.deny = 3

abbrev pub effect_rank : RuleEffect → ℕ
effect_rank RuleEffect.allow = 0
effect_rank RuleEffect.throttle = 1
effect_rank RuleEffect.escalate = 2
effect_rank RuleEffect.deny = 3

reconcile-rank :
    (py : Library) (ms : List RuleMatch) (factors : List RiskFactor) (identity : Option Identity)
    (e : RuleEffect)
    → has_effect e ms ≡ true
    → effect_rank e ≤ verdict_rank (reconcile py ms factors identity).0
unfolding reconcile
reconcile-rank py ms factors identity RuleEffect.allow h = ground arith
reconcile-rank py ms factors identity RuleEffect.throttle h = ground arith
reconcile-rank py ms factors identity RuleEffect.escalate h = ground arith
reconcile-rank py ms factors identity RuleEffect.deny h = ground arith

gate-rank :
    (adjusted : Option Identity) (read_only : Bool) (v : DecisionVerdict) (summary : String)
    → verdict_rank v ≤ verdict_rank (gate adjusted read_only v summary).0
unfolding gate
gate-rank adjusted read_only v summary = ground arith

-- The verdict is at least as restrictive as the effect of every rule that matched.
pub decide-rank :
    (py : Library) (scorer : TrustScorer) (reading : Reading) (action : Action) (found : Resolution)
    (factors : List RiskFactor) (ms : List RuleMatch) (e : RuleEffect)
    → has_effect e ms ≡ true
    → effect_rank e ≤ verdict_rank (decide py scorer reading action found factors ms).verdict
unfolding decide
decide-rank py scorer reading action found factors ms e h =
    omega (arith, reconcile-rank py ms factors found.identity e h, gate-rank)

or_true : (a b : Bool) → b ≡ true → (a || b) ≡ true
or_true a b h = ground arith

abbrev pub is_refused : Outcome Identity → Bool
is_refused (err Error.dependency_unavailable) = true
is_refused _ = false

abbrev pub is_err {ℓ} : {A : Type ℓ} → Outcome A → Bool
is_err (ok a) = false
is_err (err e) = true

module _ {W : Type 0} where
  -- A risk factor of severity 0.35 or more is enough to keep an action from being allowed.
  pub evaluate-severe :
      (d : PipelineDeps W) (reading : Reading) (action : Action) (s : PipelineState W)
      (dec : Decision)
      → (evaluate d reading action s).0 ≡ ok dec
      → has_severity 3500 dec.explanation.risk_factors ≡ true
      → dec.verdict ≢ DecisionVerdict.allow
  evaluate-severe d reading action s dec h severe allowed =
      let (i, ms, known, matched, cleared) = evaluate-allow d reading action s dec h allowed in
      omega (
        arith,
        cleared.low_risk,
        aggregate_risk-floor 3500 dec.explanation.risk_factors (omega arith) severe,
      )

  degraded-classify_and_decide :
      (d : PipelineDeps W) (reading : Reading) (action : Action) (found : Resolution)
      (s : PipelineState W) (dec : Decision)
      → (classify_and_decide d reading action found s).0 ≡ ok dec
      → dec.degraded ≡ found.degraded
  unfolding classify_and_decide decide
  degraded-classify_and_decide d reading action found s dec h =
      let factors = (collect d action found s.world).0 in
      let (ms, matched, e) =
        conclude-ok d.library d.trust_scorer reading action found factors
          (PolicyEngine.evaluate d.library s.bundle action found.identity factors) dec h in
      sym (ap (λ (x : Decision). x.degraded) e)

  degraded-after_lookup :
      (d : PipelineDeps W) (reading : Reading) (action : Action) (s : PipelineState W)
      (dec : Decision) (o : Outcome Identity)
      → (after_lookup d reading action s (resolution o)).0 ≡ ok dec
      → dec.degraded ≡ is_refused o
  degraded-after_lookup d reading action s dec (ok i) h =
      degraded-classify_and_decide d reading action _ s dec h
  degraded-after_lookup d reading action s dec (err Error.dependency_unavailable) h =
      degraded-classify_and_decide d reading action _ s dec h
  degraded-after_lookup d reading action s dec (err Error.identity_error) h =
      degraded-classify_and_decide d reading action _ s dec h
  degraded-after_lookup d reading action s dec (err e) h = cc

  -- A decision is flagged as degraded exactly when the breaker refused the lookup of the identity.
  pub evaluate-degraded :
      (d : PipelineDeps W) (reading : Reading) (action : Action) (s : PipelineState W)
      (dec : Decision)
      → (evaluate d reading action s).0 ≡ ok dec
      → dec.degraded ≡ is_refused (lookup_identity reading action s).0
  unfolding evaluate
  evaluate-degraded d reading action s dec h =
      let (found, breaker, _) = lookup_identity reading action s in
      degraded-after_lookup d reading action (record s { identity_breaker = breaker }) dec found h

  -- A degraded decision is never an ALLOW.
  pub degraded-ne-allow :
      (d : PipelineDeps W) (reading : Reading) (action : Action) (s : PipelineState W)
      (dec : Decision)
      → (evaluate d reading action s).0 ≡ ok dec
      → dec.degraded ≡ true
      → dec.verdict ≢ DecisionVerdict.allow
  unfolding evaluate
  degraded-ne-allow d reading action s dec h degraded allowed =
      let (found, breaker, _) = lookup_identity reading action s in
      let s' : PipelineState W = record s { identity_breaker = breaker } in
      let (i, ms, known, matched, cleared) =
        after_lookup-allow d reading action s' found dec h allowed in
      let refused = degraded-after_lookup d reading action s' dec found h in
      cc (ap is_refused known)

  -- Some classifier of the list raises, each in the world that those before it leave.
  abbrev pub some_raises : List (String × ClassifierFn W) → Action → Option Identity → W → Bool
  some_raises [] action identity w = false
  some_raises ((_, fn) ∷ cs) action identity w =
      let (r, w') = fn action identity w in is_err r || some_raises cs action identity w'

  has_severity-gather :
      (py : Library) (cs : List (String × ClassifierFn W)) (action : Action)
      (identity : Option Identity) (w : W)
      → some_raises cs action identity w ≡ true
      → has_severity 3500 (gather py cs action identity w).0 ≡ true
  unfolding gather error_factor
  has_severity-gather py [] action identity w h = cc
  has_severity-gather py ((name, fn) ∷ cs) action identity w h =
      let (r, w') = fn action identity w in
      let rest = (gather py cs action identity w').0 in
      rw (any-append (λ f. leb (dec4 3500) f.severity) (caught py name r) rest)
        (ground (arith, has_severity-gather py cs action identity w'))

  pub risk_factors-evaluate :
      (d : PipelineDeps W) (reading : Reading) (action : Action) (s : PipelineState W)
      (dec : Decision) (found : Resolution)
      → resolution (lookup_identity reading action s).0 ≡ ok found
      → (evaluate d reading action s).0 ≡ ok dec
      → (collect d action found s.world).0 ≡ dec.explanation.risk_factors
  unfolding evaluate classify_and_decide
  risk_factors-evaluate d reading action s dec found r h =
      let (_, breaker, _) = lookup_identity reading action s in
      let s' : PipelineState W = record s { identity_breaker = breaker } in
      let factors = (collect d action found s.world).0 in
      let (ms, matched, e) =
        conclude-ok d.library d.trust_scorer reading action found factors
          (PolicyEngine.evaluate d.library s.bundle action found.identity factors) dec
          (subst (λ x. (after_lookup d reading action s' x).0 ≡ ok dec) r h) in
      sym (risk_factors-decide d.library d.trust_scorer reading action found factors ms)
      ∙ ap (λ (x : Decision). x.explanation.risk_factors) e

  -- If any of the five classifiers raises, the action is not allowed.
  pub evaluate-some_raises :
      (d : PipelineDeps W) (reading : Reading) (action : Action) (s : PipelineState W)
      (dec : Decision) (found : Resolution)
      → resolution (lookup_identity reading action s).0 ≡ ok found
      → (evaluate d reading action s).0 ≡ ok dec
      → some_raises (classifiers d) action found.identity s.world ≡ true
      → dec.verdict ≢ DecisionVerdict.allow
  unfolding collect
  evaluate-some_raises d reading action s dec found r h raised =
      let batches = (gather d.library (classifiers d) action found.identity s.world).0 in
      let unknown = if found.identity_unknown then unknown_factor action ∷ [] else [] in
      let severe : has_severity 3500 (unknown ++ batches) ≡ true =
        rw (any-append (λ f. leb (dec4 3500) f.severity) unknown batches) (
          or_true _ _
            (has_severity-gather d.library (classifiers d) action found.identity s.world raised)) in
      evaluate-severe d reading action s dec h (
        subst (λ fs. has_severity 3500 fs ≡ true)
          (risk_factors-evaluate d reading action s dec found r h) severe)

  -- An evaluation changes neither the policy bundle nor the identity store: the adjusted trust score
  -- and tier are used for this verdict and then dropped.
  pub evaluate-frame :
      (d : PipelineDeps W) (reading : Reading) (action : Action) (s : PipelineState W)
      → ((evaluate d reading action s).1.store ≡ s.store)
        × ((evaluate d reading action s).1.bundle ≡ s.bundle)
  unfolding evaluate classify_and_decide
  evaluate-frame d reading action s = ground arith
