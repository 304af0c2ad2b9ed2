-- ===== src/Examples/Routes.antt =====
-- The routes, the bearer check, the proxies and the identity store at concrete inputs.
use osl_agent_sentinel.Prelude.{
  ℕ, ◌≡◌, ◌⊎◌, refl, String, true, false, none, some, [], ◌∷◌, ◌==◌, string_eq, Outcome, ok,
}
use osl_agent_sentinel.Models.Value.{get_field, str, no_fields, entry}
use osl_agent_sentinel.Models.Action.{Action, ActionType, Fresh}
use osl_agent_sentinel.Models.Decision.{DecisionVerdict, Decision, deny_decision}
use osl_agent_sentinel.Identity.Resolver.{resolve}
use osl_agent_sentinel.Identity.Store.{
  upserted, withdrawn, in_memory, after, resolved_by, last_upsert, revoked_since, resolve-Refines,
}
use osl_agent_sentinel.Tenancy.{TenantConfig, default_tenant, get_tenant, with_default}
use osl_agent_sentinel.Interceptor.{Interceptor}
use osl_agent_sentinel.Pipeline.Evaluate.{PipelineState}
use osl_agent_sentinel.Api.{replied, http_error}
use osl_agent_sentinel.Api.Auth.{
  authenticate, unconfigured, is_public, Presents, authenticate-forwarded,
}
use osl_agent_sentinel.Api.Routes.{
  for_tenant, or_default_tenant, evaluate_route, get_identity_route, upsert_identity_route,
}
use osl_agent_sentinel.Api.Tenants.{
  under_tenant, answer, evaluate_route-IsScoped, get_identity_route-upsert,
}
use osl_agent_sentinel.Adapters.{kong_authorize}
use osl_agent_sentinel.Adapters.Pass.{kong, built_by, IsAllowed, passes-IsAllowed}
use osl_agent_sentinel.Examples.Data.{
  library, agent, action_of, deps, quiet, state_with, breaker, reading,
}

abbrev interceptor : Interceptor (Unit {0}) (Unit {0})
interceptor = record {
  deps = deps quiet;
  sha256_hex = λ a. "digest";
  policy_loader = none;
  audit_backend = none;
  approval_workflow = some (λ _. ok tt);
}

abbrev state : PipelineState (Unit {0})
state = state_with breaker

abbrev action : Action
action = action_of ActionType.payment "did:web:agent"

abbrev acme : TenantConfig
acme = record default_tenant { tenant_id = "acme" }

abbrev token : String
token = "secret"

authenticate-forwarded_example :
    (is_public "/v1/evaluate" ≡ true)
    ⊎ (((token == "") ≡ false) × Presents (λ s. s) token (some "Bearer secret"))
unfolding authenticate
authenticate-forwarded_example =
    authenticate-forwarded (λ s. s) token "/v1/evaluate" (some "Bearer secret") refl

-- Without a configured token nothing but a public path is served.
no_token : authenticate (λ s. s) "" "/v1/evaluate" (some "Bearer ") ≡ unconfigured
unfolding authenticate
no_token = refl

evaluate_route-IsScoped_example :
    ((status : ℕ) × (for_tenant with_default
          (some "default")
          (evaluate_route interceptor reading 1 action)
          state
        ≡ (http_error status, state)))
    ⊎ ((tenant : TenantConfig) × (get_tenant with_default (or_default_tenant (some "default"))
          ≡ ok tenant)
        × (for_tenant with_default
              (some "default")
              (evaluate_route interceptor reading 1 action)
              state
            ≡ answer interceptor reading 1 (under_tenant tenant action) state))
evaluate_route-IsScoped_example =
    evaluate_route-IsScoped interceptor with_default (some "default") reading 1 action state

-- An action of another tenant is refused.
foreign_refused : evaluate_route interceptor reading 1 action acme state ≡ (http_error 403, state)
unfolding evaluate_route
foreign_refused = refl

get_identity_route-upsert_example :
    (get_identity_route interceptor agent.did acme
      (upsert_identity_route interceptor agent default_tenant state).1).0
    ≡ replied 200 agent
get_identity_route-upsert_example =
    get_identity_route-upsert interceptor agent default_tenant acme state refl

resolve-Refines_example :
    resolve (after in_memory (withdrawn "did:web:other" ∷ upserted agent ∷ [])) "did:web:agent"
    ≡ resolved_by
        (last_upsert (withdrawn "did:web:other" ∷ upserted agent ∷ []) "did:web:agent")
        (revoked_since (withdrawn "did:web:other" ∷ upserted agent ∷ []) "did:web:agent")
resolve-Refines_example =
    resolve-Refines (withdrawn "did:web:other" ∷ upserted agent ∷ []) "did:web:agent"

-- An interceptor that allows every action.
abbrev allowing : Action → Unit {0} → Outcome Decision × Unit {0}
unfolding deny_decision
allowing a w = (
  ok (record (deny_decision reading.stamp "" (some a.id) "" false) {
    verdict = DecisionVerdict.allow;
  }),
  w,
)

abbrev fresh : Fresh
fresh = record { id = "a"; session_id = "s"; now = 1 }

passes-IsAllowed_example :
    IsAllowed allowing
      (built_by kong library fresh (entry "agent_did" (str "did:web:agent") no_fields))
      tt
unfolding kong_authorize get_field allowing
passes-IsAllowed_example =
    passes-IsAllowed allowing kong library fresh (entry "agent_did" (str "did:web:agent") no_fields)
      tt refl
