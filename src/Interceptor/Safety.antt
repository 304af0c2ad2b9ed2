-- ===== src/Interceptor/Safety.antt =====
-- What the pipeline guarantees, seen through the interceptor.
use osl_agent_sentinel.Prelude.{
  ℕ, ◌≡◌, arith, String, Option, none, some, Outcome, ok, err, ◌∙◌, subst, refl, ap, sym,
  ok-injective, ◌==◌, string_eq, if◌then◌else◌,
}
use osl_agent_sentinel.Models.Action.{Action}
use osl_agent_sentinel.Models.Decision.{DecisionVerdict, Decision}
use osl_agent_sentinel.Models.Identity.{Identity}
use osl_agent_sentinel.Pipeline.Evaluate
use osl_agent_sentinel.Pipeline.Evaluate.{PipelineState, Reading}
use osl_agent_sentinel.Pipeline.Safety.{Allowed, AllowedWith, evaluate-allow}
use osl_agent_sentinel.Identity.Resolver.{resolve-put}
use osl_agent_sentinel.Interceptor.{
  Interceptor, stamped, timed, timed_at, evaluate, lookup_identity, upsert_identity,
}

timed_at-fields :
    (elapsed : ℕ) (d : Decision) (l : Option ℕ)
    → ((timed_at elapsed d l).verdict ≡ d.verdict)
      × ((timed_at elapsed d l).explanation ≡ d.explanation)
timed_at-fields elapsed d none = (refl, refl)
timed_at-fields elapsed d (some l) = (refl, refl)

timed-ok :
    (elapsed : ℕ) (o : Outcome Decision) (dec : Decision)
    → timed elapsed o ≡ ok dec
    → (d : Decision) × (o ≡ ok d) × (dec.verdict ≡ d.verdict) × (dec.explanation ≡ d.explanation)
timed-ok elapsed (err e) dec h = cc
timed-ok elapsed (ok d) dec h =
    let e = ok-injective h in
    let (v, x) = timed_at-fields elapsed d d.latency_ms in
    (
      d,
      refl,
      sym (ap (λ (x : Decision). x.verdict) e) ∙ v,
      sym (ap (λ (x : Decision). x.explanation) e) ∙ x,
    )

-- The guarantees of an ALLOW of the pipeline hold for one of the interceptor, for the action with
-- its digest.
pub evaluate-safe :
    {W Record : Type 0} (i : Interceptor W Record) (reading : Reading) (elapsed : ℕ)
    (action : Action) (s : PipelineState W) (dec : Decision)
    → (evaluate i reading elapsed action s).0 ≡ ok dec
    → dec.verdict ≡ DecisionVerdict.allow
    → Allowed i.deps (stamped i.sha256_hex action) s dec
unfolding evaluate
evaluate-safe i reading elapsed action s dec h v =
    let run = Evaluate.evaluate i.deps reading (stamped i.sha256_hex action) s in
    let (d, ran, same_verdict, same) = timed-ok elapsed run.0 dec h in
    subst (AllowedWith i.deps (stamped i.sha256_hex action) s) (ap (λ x. x.risk_factors) (sym same))
      (evaluate-allow i.deps reading (stamped i.sha256_hex action) s d ran (sym same_verdict ∙ v))

-- An upsert over the route helpers is seen by the next lookup of any DID: the record itself unless
-- it is revoked, and for another DID what was there before.
pub lookup-upsert :
    {W : Type 0} (s : PipelineState W) (identity : Identity) (did : String)
    → lookup_identity (upsert_identity s identity).1 did ≡ (
        if identity.did == did
        then (if identity.revoked then none else some identity)
        else lookup_identity s did)
unfolding lookup_identity upsert_identity
lookup-upsert s identity did = ground (arith, resolve-put s.store identity did)
