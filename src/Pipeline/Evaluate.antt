-- ===== src/Pipeline/Evaluate.antt =====
-- `DecisionPipeline.evaluate` and `_safe_run` of sentinel/core/pipeline.py. One evaluation runs from
-- the lookup of the identity to the decision; its classifiers run in the order of the `gather`.
use osl_agent_sentinel.Prelude.{
  ℕ, String, Bool, true, false, not, ◌&&◌, Option, none, some, List, [], ◌∷◌, ◌++◌, contains, ◌==◌,
  string_eq, if◌then◌else◌, Outcome, ok, err, Error,
}
use osl_agent_sentinel.Prelude.Text.{concat, take_chars}
use osl_agent_sentinel.Runtime.{Library}
use osl_agent_sentinel.Score.{dec4}
use osl_agent_sentinel.Models.Action.{Action, ActionType, type_value}
use osl_agent_sentinel.Models.Decision.{DecisionVerdict, verdict_eq, RiskFactor, Stamp, Decision}
use osl_agent_sentinel.Models.Identity.{Identity, TrustTier}
use osl_agent_sentinel.Models.Policy.{PolicyBundle}
use osl_agent_sentinel.Breaker.{CircuitBreaker, call}
use osl_agent_sentinel.Identity.Resolver.{Store, resolve}
use osl_agent_sentinel.Identity.TrustScorer.{TrustScorer, adjust}
use osl_agent_sentinel.PolicyEngine
use osl_agent_sentinel.PolicyEngine.{RuleMatch}
use osl_agent_sentinel.Pipeline.Risk.{aggregate_risk, remediation, unique, all_refs}
use osl_agent_sentinel.Pipeline.Reconcile.{reconcile}

-- A classifier may keep a state of its own in the world `W`.
abbrev pub ClassifierFn : Type 0 → Type 0
ClassifierFn W = Action → Option Identity → W → Outcome (List RiskFactor) × W

-- `PipelineDeps`, less what changes: a classifier goes with its `__qualname__`. The cache, the
-- approval workflow, the tenants, two of the breakers and the metrics are not used by `evaluate`.
pub record PipelineDeps (W : Type 0) : Type 0 where
  pub library : Library
  pub trust_scorer : TrustScorer
  pub intent_classifier : String × ClassifierFn W
  pub tool_validator : String × ClassifierFn W
  pub anomaly_detector : String × ClassifierFn W
  pub injection_detector : String × ClassifierFn W
  pub dlp_scanner : String × ClassifierFn W

-- The parts of `PipelineDeps` that hold state.
pub record PipelineState (W : Type 0) : Type 0 where
  pub bundle : PolicyBundle
  pub store : Store
  pub identity_breaker : CircuitBreaker
  pub world : W

-- The clock before and after the lookup of the identity, the stamp of the decision, and the time
-- that the stopwatch shows.
pub record Reading : Type 0 where
  pub now : ℕ
  pub later : ℕ
  pub stamp : Stamp
  pub elapsed_ms : ℕ

-- What the two handlers of the lookup leave behind.
pub record Resolution : Type 0 where
  pub identity : Option Identity
  pub degraded : Bool
  pub identity_unknown : Bool

abbrev pub resolution : Outcome Identity → Outcome Resolution
resolution (ok i) = ok (record { identity = some i; degraded = false; identity_unknown = false })
resolution (err Error.dependency_unavailable) =
    ok (record { identity = none; degraded = true; identity_unknown = false })
resolution (err Error.identity_error) =
    ok (record { identity = none; degraded = false; identity_unknown = true })
resolution (err e) = err e

unfoldable pub unknown_factor : Action → RiskFactor
unknown_factor action = record {
  code = "identity.unknown";
  severity = dec4 6000;
  detector = "identity_resolver";
  message = concat ("Unknown or anonymous agent DID: " ∷ action.agent_did ∷ []);
  evidence = ("references", "OWASP-AGENT-04") ∷ [];
}

-- The synthetic factor of a classifier that raised.
unfoldable pub error_factor : Library → String → Error → RiskFactor
error_factor py detector e = record {
  code = "classifier.error";
  severity = dec4 6000;
  detector = detector;
  message = "Classifier failed; treating as elevated risk.";
  evidence = ("error", take_chars 200 (py.str_of_error e)) ∷ [];
}

abbrev pub caught : Library → String → Outcome (List RiskFactor) → List RiskFactor
caught py detector (ok factors) = factors
caught py detector (err e) = error_factor py detector e ∷ []

-- The action types that an OBSERVE identity keeps.
abbrev pub is_read_only : ActionType → Bool
is_read_only t = contains ("file_read" ∷ "memory_read" ∷ "llm_prompt" ∷ []) (type_value t)

module _ {W : Type 0} where
  -- `_safe_run`
  unfoldable pub safe_run :
      Library → String × ClassifierFn W → Action → Option Identity → W → List RiskFactor × W
  safe_run py (detector, fn) action identity w =
      let (r, w') = fn action identity w in (caught py detector r, w')

  -- The batches of a list of classifiers, one after the other.
  unfoldable pub gather :
      Library → List (String × ClassifierFn W) → Action → Option Identity → W → List RiskFactor × W
  unfolding safe_run
  gather py [] action identity w = ([], w)
  gather py (c ∷ cs) action identity w =
      let (batch, w') = safe_run py c action identity w in
      let (rest, w'') = gather py cs action identity w' in (batch ++ rest, w'')

  abbrev pub classifiers : PipelineDeps W → List (String × ClassifierFn W)
  classifiers d =
      d.intent_classifier ∷ d.tool_validator ∷ d.anomaly_detector ∷ d.injection_detector
      ∷ d.dlp_scanner ∷ []

abbrev pub is_observe : Option Identity → Bool
is_observe none = false
is_observe (some i) = elim i.tier [ TrustTier.observe ↦ true | _ ↦ false ]

-- The gate after trust scoring: the verdict and the summary that it leaves.
unfoldable pub gate : Option Identity → Bool → DecisionVerdict → String → DecisionVerdict × String
gate trust_adjusted read_only verdict summary =
    if is_observe trust_adjusted && (verdict == DecisionVerdict.allow) && not read_only
    then (DecisionVerdict.deny, "Identity demoted to OBSERVE tier; write actions denied.")
    else (verdict, summary)

-- The end of `evaluate`, from the rules that matched.
unfoldable pub decide :
    Library
    → TrustScorer
    → Reading
    → Action
    → Resolution
    → List RiskFactor
    → List RuleMatch
    → Decision
unfolding gate
decide py scorer reading action found factors matches =
    let (verdict, summary, ids) = reconcile py matches factors found.identity in
    let adjusted = adjust scorer found.identity factors verdict in
    let (verdict', summary') = gate adjusted (is_read_only action.type) verdict summary in
    record {
      id = reading.stamp.id;
      action_id = action.id;
      verdict = verdict';
      decided_at = reading.stamp.now;
      decided_by = "sentinel.pipeline";
      explanation = record {
        summary = summary';
        triggered_rule_ids = ids;
        risk_factors = factors;
        risk_score = aggregate_risk factors;
        recommended_remediation = remediation verdict' factors;
        references = unique (all_refs factors);
      };
      latency_ms = some reading.elapsed_ms;
      cache_hit = false;
      degraded = found.degraded;
    }

-- What the policy engine returned, or raised, as the outcome of the evaluation.
abbrev pub conclude :
    Library
    → TrustScorer
    → Reading
    → Action
    → Resolution
    → List RiskFactor
    → Outcome (List RuleMatch)
    → Outcome Decision
conclude py scorer reading action found factors (ok matches) =
    ok (decide py scorer reading action found factors matches)
conclude py scorer reading action found factors (err e) = err e

module _ {W : Type 0} where
  -- The risk factors of an evaluation, and the world that the classifiers leave.
  unfoldable pub collect : PipelineDeps W → Action → Resolution → W → List RiskFactor × W
  unfolding gather
  collect d action found w =
      let unknown = if found.identity_unknown then unknown_factor action ∷ [] else [] in
      let (batches, w') = gather d.library (classifiers d) action found.identity w in
      (unknown ++ batches, w')

  -- `evaluate`, once the identity is looked up.
  unfoldable pub classify_and_decide :
      PipelineDeps W
      → Reading
      → Action
      → Resolution
      → PipelineState W
      → Outcome Decision × PipelineState W
  classify_and_decide d reading action found s =
      let (factors, w) = collect d action found s.world in
      let matched = PolicyEngine.evaluate d.library s.bundle action found.identity factors in
      (
        conclude d.library d.trust_scorer reading action found factors matched,
        record s { world = w },
      )

  unfoldable pub lookup_identity :
      Reading → Action → PipelineState W → Outcome Identity × CircuitBreaker × Unit {0}
  lookup_identity reading action s =
      call reading.now reading.later (λ u. (resolve s.store action.agent_did, u)) s.identity_breaker
        tt

  -- An exception of the lookup that has no handler ends the evaluation.
  abbrev pub after_lookup :
      PipelineDeps W
      → Reading
      → Action
      → PipelineState W
      → Outcome Resolution
      → Outcome Decision × PipelineState W
  after_lookup d reading action s (ok found) = classify_and_decide d reading action found s
  after_lookup d reading action s (err e) = (err e, s)

  unfoldable pub evaluate :
      PipelineDeps W → Reading → Action → PipelineState W → Outcome Decision × PipelineState W
  unfolding classify_and_decide lookup_identity
  evaluate d reading action s =
      let (found, breaker, _) = lookup_identity reading action s in
      after_lookup d reading action (record s { identity_breaker = breaker }) (resolution found)
