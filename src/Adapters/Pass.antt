-- ===== src/Adapters/Pass.antt =====
-- When the proxies let a request pass.
use osl_agent_sentinel.Prelude.{
  ◌≡◌, refl, ap, arith, String, Bool, true, false, ◌==◌, string_eq, ℕ_eq, nat_eq_iff, eq_iff,
  if◌then◌else◌, Outcome, ok, err, ok-injective, ◌>>=◌, subst,
}
use osl_agent_sentinel.Runtime.{Library}
use osl_agent_sentinel.Models.Value.{Fields}
use osl_agent_sentinel.Models.Action.{Action, Fresh}
use osl_agent_sentinel.Models.Decision.{allow, verdict_eq, verdict_beq_iff, Decision}
use osl_agent_sentinel.Adapters.{
  KongReply, kong_reply, kong_action, kong_authorize, AuthorizerReply, aws_reply, aws_action,
  aws_authorize, CheckResponse, envoy_reply, envoy_action, envoy_check, decided,
}

kong_reply-allow : (d : Decision) → (kong_reply d).status ≡ 200 → d.verdict ≡ allow
unfolding kong_reply
kong_reply-allow d h = ground (arith, verdict_beq_iff d.verdict allow)

effect-allow :
    (b : Bool)
    → (let effect : String = if b then "Allow" else "Deny" in effect == "Allow") ≡ true
    → b ≡ true
effect-allow true h = refl
effect-allow false h = absurd cc

aws_reply-allow :
    (event : Fields) (a : Action) (d : Decision)
    → (aws_reply event a d).effect ≡ "Allow"
    → d.verdict ≡ allow
unfolding aws_reply
aws_reply-allow event a d h =
    (verdict_beq_iff d.verdict allow).0
      (effect-allow (d.verdict == allow) ((eq_iff (aws_reply event a d).effect "Allow").1 h))

envoy_reply-allow : (d : Decision) → (envoy_reply d).code ≡ 0 → d.verdict ≡ allow
unfolding envoy_reply
envoy_reply-allow d h = ground (arith, verdict_beq_iff d.verdict allow)

paired :
    (a : Action) (o : Outcome Decision) (action : Action) (d : Decision)
    → elim o [
      | ok decision ↦ (let both : Outcome (Action × Decision) = ok (a, decision) in both)
      | err e ↦ err e
    ]
      ≡ ok (action, d)
    → (a ≡ action) × (o ≡ ok d)
paired a (ok decision) action d h =
    (ap (λ x. x.0) (ok-injective h), ap (λ x. ok x.1) (ok-injective h))
paired a (err e) action d h = absurd cc

pub data Proxy : Type 0 where
  kong aws envoy : Proxy

-- What tells the proxy to let the request pass: the status 200, the effect Allow, the code 0.
abbrev pub kong_passes : Outcome KongReply → Bool
kong_passes (ok reply) = reply.status == 200
kong_passes (err e) = false

abbrev pub aws_passes : Outcome AuthorizerReply → Bool
aws_passes (ok reply) = reply.effect == "Allow"
aws_passes (err e) = false

abbrev pub envoy_passes : Outcome CheckResponse → Bool
envoy_passes (ok reply) = reply.code == 0
envoy_passes (err e) = false

-- The action that the adapter builds of a request.
abbrev pub built_by : Proxy → Library → Fresh → Fields → Outcome Action
built_by kong = kong_action
built_by aws = aws_action
built_by envoy = envoy_action

module _ {W : Type 0} (evaluate : Action → W → Outcome Decision × W) where
  -- The interceptor allowed the action that was built of the request.
  abbrev pub IsAllowed : Outcome Action → W → Type 0
  IsAllowed built w =
      (action : Action) × (d : Decision) × (built ≡ ok action)
      × ((evaluate action w).0 ≡ ok d)
      × (d.verdict ≡ allow)

  decided-ok :
      (built : Outcome Action) (w : W) (action : Action) (d : Decision)
      → (decided evaluate built w).0 ≡ ok (action, d)
      → (built ≡ ok action) × ((evaluate action w).0 ≡ ok d)
  decided-ok (err e) w action d h = absurd cc
  decided-ok (ok a) w action d h =
      let (same, e) = paired a (evaluate a w).0 action d h in
      (ap ok same, subst (λ x. (evaluate x w).0 ≡ ok d) same e)

  -- The proxy lets the request pass.
  abbrev pub passes : Proxy → Library → Fresh → Fields → W → Bool
  passes kong py fresh request w = kong_passes (kong_authorize evaluate py fresh request w).0
  passes aws py fresh request w = aws_passes (aws_authorize evaluate py fresh request w).0
  passes envoy py fresh request w = envoy_passes (envoy_check evaluate py fresh request w).0

  kong-IsAllowed :
      (built : Outcome Action) (w : W) (o : Outcome (Action × Decision))
      → (decided evaluate built w).0 ≡ o
      → kong_passes (o >>= (λ (action, d). ok (kong_reply d))) ≡ true
      → IsAllowed built w
  unfolding kong_reply
  kong-IsAllowed built w (err e) ran h = absurd cc
  kong-IsAllowed built w (ok (action, d)) ran h =
      let (a, e) = decided-ok built w action d ran in
      (action, d, a, e, kong_reply-allow d (ground (arith, nat_eq_iff (kong_reply d).status 200)))

  aws-IsAllowed :
      (event : Fields) (built : Outcome Action) (w : W) (o : Outcome (Action × Decision))
      → (decided evaluate built w).0 ≡ o
      → aws_passes (o >>= (λ (action, d). ok (aws_reply event action d))) ≡ true
      → IsAllowed built w
  unfolding aws_reply
  aws-IsAllowed event built w (err e) ran h = absurd cc
  aws-IsAllowed event built w (ok (action, d)) ran h =
      let (a, e) = decided-ok built w action d ran in
      (
        action,
        d,
        a,
        e,
        aws_reply-allow event action d ((eq_iff (aws_reply event action d).effect "Allow").0 h),
      )

  envoy-IsAllowed :
      (built : Outcome Action) (w : W) (o : Outcome (Action × Decision))
      → (decided evaluate built w).0 ≡ o
      → envoy_passes (o >>= (λ (action, d). ok (envoy_reply d))) ≡ true
      → IsAllowed built w
  unfolding envoy_reply
  envoy-IsAllowed built w (err e) ran h = absurd cc
  envoy-IsAllowed built w (ok (action, d)) ran h =
      let (a, e) = decided-ok built w action d ran in
      (action, d, a, e, envoy_reply-allow d (ground (arith, nat_eq_iff (envoy_reply d).code 0)))

  -- Kong, API Gateway and Envoy are told to let a request pass only where an action could be built of
  -- it and the interceptor answers that action with ALLOW: no other verdict, and no exception on the
  -- way, lets it pass.
  pub passes-IsAllowed :
      (proxy : Proxy) (py : Library) (fresh : Fresh) (request : Fields) (w : W)
      → passes proxy py fresh request w ≡ true
      → IsAllowed (built_by proxy py fresh request) w
  unfolding kong_authorize aws_authorize envoy_check
  passes-IsAllowed kong py fresh request w h =
      let built = kong_action py fresh request in
      kong-IsAllowed built w (decided evaluate built w).0 refl h
  passes-IsAllowed aws py fresh request w h =
      let built = aws_action py fresh request in
      aws-IsAllowed request built w (decided evaluate built w).0 refl h
  passes-IsAllowed envoy py fresh request w h =
      let built = envoy_action py fresh request in
      envoy-IsAllowed built w (decided evaluate built w).0 refl h
