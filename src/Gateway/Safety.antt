-- ===== src/Gateway/Safety.antt =====
-- When the gateway runs a tool, and what its callers see.
use osl_agent_sentinel.Prelude.{
  ℕ, ◌≡◌, ◌≢◌, refl, arith, Option, Outcome, ok, err, ◌==◌, inl, inr, Bool-cases,
}
use osl_agent_sentinel.Models.Action.{Action, Fresh}
use osl_agent_sentinel.Models.Decision.{DecisionVerdict, verdict_eq, Decision}
use osl_agent_sentinel.Pipeline.Evaluate.{PipelineState, Reading}
use osl_agent_sentinel.Pipeline.Safety.{Allowed}
use osl_agent_sentinel.Interceptor.{stamped}
use osl_agent_sentinel.Interceptor.Safety.{evaluate-safe}
use osl_agent_sentinel.Gateway.{
  ToolHandler, returned, denied, ToolCall, runner, after_decision, action_for, McpGateway,
  decision_on, evaluate, invoke, outcome_of,
}

module _ {T Output : Type 0} (f : Option (ToolHandler T Output)) (c : ToolCall) where
  after_decision-changed :
      (o : Outcome Decision) (t : T)
      → (after_decision f c o t).1 ≢ t
      → (dec : Decision) × (o ≡ ok dec) × (dec.verdict ≡ DecisionVerdict.allow)
  after_decision-changed (err e) t changed = absurd (changed refl)
  after_decision-changed (ok dec) t changed =
      elim (Bool-cases (dec.verdict == DecisionVerdict.allow)) [
        | inl h ↦ (dec, refl, ground arith)
        | inr h ↦ absurd (changed (rw h refl))
      ]

  after_decision-returned :
      (o : Outcome Decision) (t : T) (out : Option Output)
      → outcome_of (after_decision f c o t).0 ≡ returned out
      → (dec : Decision) × (o ≡ ok dec) × (dec.verdict ≡ DecisionVerdict.allow)
  after_decision-returned (err e) t out h = cc
  after_decision-returned (ok dec) t out h = (dec, refl, ground arith)

  after_decision-denied :
      (o : Outcome Decision) (dec : Decision) (t : T)
      → o ≡ ok dec
      → dec.verdict ≢ DecisionVerdict.allow
      → (outcome_of (after_decision f c o t).0 ≡ denied dec) × ((after_decision f c o t).1 ≡ t)
  after_decision-denied (err e) dec t h v = cc
  after_decision-denied (ok d) dec t h v = ground arith

module _ {W Record T Output : Type 0} (g : McpGateway W Record T Output) (fresh : Fresh)
    (reading : Reading) (elapsed : ℕ) (c : ToolCall) (executor : Option (ToolHandler T Output))
    (s : PipelineState W) (t : T) where
  -- An action was built for the call, the interceptor answered it with ALLOW, and the pipeline's
  -- conditions for that decision held.
  abbrev pub Cleared : Type 0
  Cleared =
      (action : Action) × (dec : Decision) × (action_for fresh c ≡ ok action)
      × ((decision_on g reading elapsed (ok action) s).0 ≡ ok dec)
      × (dec.verdict ≡ DecisionVerdict.allow)
      × Allowed g.interceptor.deps (stamped g.interceptor.sha256_hex action) s dec

  decision_on-allow :
      (o : Outcome Action) (dec : Decision)
      → (decision_on g reading elapsed o s).0 ≡ ok dec
      → dec.verdict ≡ DecisionVerdict.allow
      → (action : Action) × (o ≡ ok action)
        × ((decision_on g reading elapsed (ok action) s).0 ≡ ok dec)
        × (dec.verdict ≡ DecisionVerdict.allow)
        × Allowed g.interceptor.deps (stamped g.interceptor.sha256_hex action) s dec
  unfolding decision_on
  decision_on-allow (err e) dec h v = cc
  decision_on-allow (ok action) dec h v =
      (action, refl, h, v, evaluate-safe g.interceptor reading elapsed action s dec h v)

  -- The world of the tools is changed by `invoke` only where the interceptor answered the action of
  -- the call with ALLOW, on a known and unrevoked identity, with no matching rule that denies,
  -- escalates or throttles and with the risk of that very decision below 0.35.
  pub invoke-changed : (invoke g fresh reading elapsed c executor (s, t)).2 ≢ t → Cleared
  unfolding invoke evaluate
  invoke-changed changed =
      let (dec, answered, v) =
        after_decision-changed (runner executor g.handler) c
          (decision_on g reading elapsed (action_for fresh c) s).0 t changed in
      let (action, built, given, allowed, safe) =
        decision_on-allow (action_for fresh c) dec answered v in
      (action, dec, built, given, allowed, safe)

  -- `invoke` returns to its caller only under the same conditions.
  pub invoke-returned :
      (out : Option Output)
      → (invoke g fresh reading elapsed c executor (s, t)).0 ≡ returned out
      → Cleared
  unfolding invoke evaluate
  invoke-returned out h =
      let (dec, answered, v) =
        after_decision-returned (runner executor g.handler) c
          (decision_on g reading elapsed (action_for fresh c) s).0 t out h in
      let (action, built, given, allowed, safe) =
        decision_on-allow (action_for fresh c) dec answered v in
      (action, dec, built, given, allowed, safe)

  -- A decision other than ALLOW is raised to the caller as it is, and no tool has run.
  pub invoke-denied :
      (dec : Decision)
      → (decision_on g reading elapsed (action_for fresh c) s).0 ≡ ok dec
      → dec.verdict ≢ DecisionVerdict.allow
      → ((invoke g fresh reading elapsed c executor (s, t)).0 ≡ denied dec)
        × ((invoke g fresh reading elapsed c executor (s, t)).2 ≡ t)
  unfolding invoke evaluate
  invoke-denied dec answered v =
      after_decision-denied (runner executor g.handler) c
        (decision_on g reading elapsed (action_for fresh c) s).0 dec t answered v
