-- ===== src/Api/Tenants.antt =====
-- What the routes do with the tenant of a request, and how the approval route answers.
use osl_agent_sentinel.Prelude.{
  ℕ, ◌≡◌, refl, ◌∙◌, ◌⊎◌, inl, inr, ap, arith, String, true, false, Bool-cases, Option, some, ◌==◌,
  string_eq, eq_iff, ok, Outcome-cases,
}
use osl_agent_sentinel.Models.Action.{Action}
use osl_agent_sentinel.Models.Decision.{Decision}
use osl_agent_sentinel.Models.Identity.{Identity}
use osl_agent_sentinel.Tenancy.{TenantConfig, TenantManager, get_tenant}
use osl_agent_sentinel.Pipeline.Evaluate.{PipelineState, Reading}
use osl_agent_sentinel.Interceptor
use osl_agent_sentinel.Interceptor.{Interceptor, resolve_approval, lookup_identity, upsert_identity}
use osl_agent_sentinel.Interceptor.Safety.{lookup-upsert}
use osl_agent_sentinel.Api.{Reply, replied, http_error, reply_of}
use osl_agent_sentinel.Api.Routes.{
  or_default_tenant, for_tenant, scoped_action, is_foreign, evaluate_route, get_identity_route,
  upsert_identity_route,
}

-- The action of the request under the tenant of the request.
abbrev pub under_tenant : TenantConfig → Action → Action
under_tenant tenant action = record action { tenant_id = tenant.tenant_id }

scoped_action-own :
    (tenant : TenantConfig) (action : Action)
    → is_foreign tenant action ≡ false
    → scoped_action tenant action ≡ under_tenant tenant action
scoped_action-own tenant action own = elim (Bool-cases (action.tenant_id == "")) [
  | inl unset ↦ rw unset refl
  | inr set ↦
      let same : action.tenant_id ≡ tenant.tenant_id =
        ground (arith, eq_iff action.tenant_id tenant.tenant_id) in
      rw set (ap (λ t. record action { tenant_id = t }) same)
]

module _ {W Record : Type 0} (i : Interceptor W Record) where
  -- What the interceptor answers to an action, as a reply.
  abbrev pub answer : Reading → ℕ → Action → PipelineState W → Reply Decision × PipelineState W
  answer reading elapsed action s =
      let (decided, s') = Interceptor.evaluate i reading elapsed action s in
      (reply_of 200 decided, s')

  evaluate_route-cases :
      (reading : Reading) (elapsed : ℕ) (action : Action) (tenant : TenantConfig)
      (s : PipelineState W)
      → (evaluate_route i reading elapsed action tenant s ≡ (http_error 403, s))
        ⊎ (evaluate_route i reading elapsed action tenant s
            ≡ answer reading elapsed (under_tenant tenant action) s)
  unfolding evaluate_route
  evaluate_route-cases reading elapsed action tenant s =
      elim (Bool-cases (is_foreign tenant action)) [
        | inl foreign ↦ inl (rw foreign refl)
        | inr own ↦ inr (rw (own, scoped_action-own tenant action own) refl)
      ]

  -- A request for an evaluation is refused without any change of the state, or its tenant is
  -- registered and the action is evaluated under that tenant and no other.
  pub evaluate_route-IsScoped :
      (tenants : TenantManager) (x_tenant_id : Option String) (reading : Reading) (elapsed : ℕ)
      (action : Action) (s : PipelineState W)
      → ((status : ℕ) × (for_tenant tenants x_tenant_id (evaluate_route i reading elapsed action) s
            ≡ (http_error status, s)))
        ⊎ ((tenant : TenantConfig) × (get_tenant tenants (or_default_tenant x_tenant_id)
              ≡ ok tenant)
            × (for_tenant tenants x_tenant_id (evaluate_route i reading elapsed action) s
                ≡ answer reading elapsed (under_tenant tenant action) s))
  evaluate_route-IsScoped tenants x_tenant_id reading elapsed action s =
      elim (Outcome-cases (get_tenant tenants (or_default_tenant x_tenant_id))) [
        | inr (e, unknown) ↦ inl (404, rw unknown refl)
        | inl (tenant, known) ↦ elim (evaluate_route-cases reading elapsed action tenant s) [
          | inl refused ↦ inl (403, rw known refused)
          | inr served ↦ inr (tenant, known, rw known served)
        ]
      ]

  -- An identity that one tenant stores, and that is not revoked, is what any other tenant reads under
  -- its DID.
  pub get_identity_route-upsert :
      (identity : Identity) (tenant other : TenantConfig) (s : PipelineState W)
      → identity.revoked ≡ false
      → (get_identity_route i identity.did other (upsert_identity_route i identity tenant s).1).0
        ≡ replied 200 identity
  unfolding get_identity_route upsert_identity_route
  get_identity_route-upsert identity tenant other s live =
      let read = lookup-upsert s identity identity.did in
      let itself : (identity.did == identity.did) ≡ true =
        ground (arith, eq_iff identity.did identity.did) in
      let found : lookup_identity (upsert_identity s identity).1 identity.did ≡ some identity =
        read ∙ rw (itself, live) refl in
      rw found refl
