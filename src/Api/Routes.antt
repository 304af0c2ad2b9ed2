-- ===== src/Api/Routes.antt =====
-- sentinel/api/dependencies.py and routes/*.py over the interceptor. The tenant of a request is
-- resolved before its handler runs.
use osl_agent_sentinel.Prelude.{
  ℕ, String, Bool, not, ◌&&◌, ◌||◌, Option, none, some, List, leb, ◌==◌, string_eq, if◌then◌else◌,
  Outcome, ok, err, Error,
}
use osl_agent_sentinel.Models.Action.{Action}
use osl_agent_sentinel.Models.Decision.{Decision}
use osl_agent_sentinel.Models.Identity.{Identity}
use osl_agent_sentinel.Models.Policy.{PolicyBundle}
use osl_agent_sentinel.Tenancy.{TenantConfig, TenantManager, get_tenant}
use osl_agent_sentinel.Pipeline.Evaluate.{PipelineState, Reading}
use osl_agent_sentinel.Interceptor
use osl_agent_sentinel.Interceptor.{
  Interceptor, current_policy, lookup_identity, upsert_identity, reload_policy, list_audit,
  list_pending_approvals, resolve_approval,
}
use osl_agent_sentinel.Api.{Reply, replied, http_error, reply_of}

-- `x_tenant_id or "default"`
abbrev pub or_default_tenant : Option String → String
or_default_tenant none = "default"
or_default_tenant (some t) = if t == "" then "default" else t

abbrev pub with_found :
    {A S : Type 0} → Outcome TenantConfig → (TenantConfig → S → Reply A × S) → S → Reply A × S
with_found (err _) handler s = (http_error 404, s)
with_found (ok tenant) handler s = handler tenant s

-- `get_tenant`, and the handler for the tenant that it finds.
abbrev pub for_tenant :
    {A S : Type 0}
    → TenantManager
    → Option String
    → (TenantConfig → S → Reply A × S)
    → S
    → Reply A × S
for_tenant tenants x_tenant_id handler s =
    with_found (get_tenant tenants (or_default_tenant x_tenant_id)) handler s

abbrev pub scoped_action : TenantConfig → Action → Action
scoped_action tenant action =
    if action.tenant_id == "" then record action { tenant_id = tenant.tenant_id } else action

-- Another tenant than that of the request.
abbrev pub is_foreign : TenantConfig → Action → Bool
is_foreign tenant action =
    not (action.tenant_id == "") && not (action.tenant_id == tenant.tenant_id)

module _ {W Record : Type 0} (i : Interceptor W Record) where
  -- `POST /v1/evaluate`
  unfoldable pub evaluate_route :
      Reading → ℕ → Action → TenantConfig → PipelineState W → Reply Decision × PipelineState W
  evaluate_route reading elapsed action tenant s =
      if is_foreign tenant action
      then (http_error 403, s)
      else let (decided, s') =
          Interceptor.evaluate i reading elapsed (scoped_action tenant action) s in
        (reply_of 200 decided, s')

  -- `GET /v1/policies`
  abbrev pub get_policy_route :
      TenantConfig → PipelineState W → Reply PolicyBundle × PipelineState W
  get_policy_route tenant s = (replied 200 (current_policy s), s)

  abbrev pub version_of : Outcome PolicyBundle → Reply String
  version_of (ok bundle) = replied 202 bundle.version
  version_of (err e) = http_error 500

  -- `POST /v1/policies/reload`
  unfoldable pub reload_policy_route :
      TenantConfig → PipelineState W → Reply String × PipelineState W
  reload_policy_route tenant s = let (reloaded, s') = reload_policy i s in (version_of reloaded, s')

  abbrev pub found_or_404 : Option Identity → Reply Identity
  found_or_404 none = http_error 404
  found_or_404 (some identity) = replied 200 identity

  -- `GET /v1/identities/{did}`
  unfoldable pub get_identity_route :
      String → TenantConfig → PipelineState W → Reply Identity × PipelineState W
  get_identity_route did tenant s = (found_or_404 (lookup_identity s did), s)

  -- `POST /v1/identities`
  unfoldable pub upsert_identity_route :
      Identity → TenantConfig → PipelineState W → Reply Identity × PipelineState W
  upsert_identity_route identity tenant s =
      let (stored, s') = upsert_identity s identity in (replied 201 stored, s')

  -- `GET /v1/audit`; FastAPI answers a limit out of its range with 422.
  unfoldable pub list_audit_route :
      ℕ → TenantConfig → PipelineState W → Reply (List Record) × PipelineState W
  list_audit_route limit tenant s =
      if leb 1 limit && leb limit 1_000
      then (replied 200 (list_audit i tenant.tenant_id limit), s)
      else (http_error 422, s)

  -- `GET /v1/approvals`
  abbrev pub list_pending_route :
      TenantConfig → PipelineState W → Reply (List Record) × PipelineState W
  list_pending_route tenant s = (reply_of 200 (list_pending_approvals i), s)

  abbrev pub resolved_reply : String → Outcome (Unit {0}) → Reply String
  resolved_reply verdict (ok _) = replied 200 verdict
  resolved_reply verdict (err Error.runtime_error) = http_error 503
  resolved_reply verdict (err _) = http_error 500

  -- `POST /v1/approvals/{approval_id}/resolve`
  unfoldable pub resolve_route :
      String → String → TenantConfig → PipelineState W → Reply String × PipelineState W
  resolve_route approval_id verdict tenant s =
      if verdict == "allow" || verdict == "deny"
      then (resolved_reply verdict (resolve_approval i approval_id), s)
      else (http_error 400, s)
