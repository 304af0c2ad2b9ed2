-- ===== src/Interceptor.antt =====
-- sentinel/core/interceptor.py over the pipeline. The tenants, the exporter and the log lines do
-- not bear on a decision.
pub mod Safety
use osl_agent_sentinel.Prelude.{
  ℕ, String, Bool, ◌&&◌, Option, none, some, List, [], ◌∷◌, ◌++◌, all, contains, string_eq,
  if◌then◌else◌, Outcome, ok, err, Error,
}
use osl_agent_sentinel.Models.Action.{Action}
use osl_agent_sentinel.Models.Decision.{Decision}
use osl_agent_sentinel.Models.Identity.{Identity}
use osl_agent_sentinel.Models.Policy.{PolicyBundle}
use osl_agent_sentinel.Identity.Resolver.{put, resolve}
use osl_agent_sentinel.Pipeline.Evaluate
use osl_agent_sentinel.Pipeline.Evaluate.{PipelineDeps, PipelineState, Reading}

-- `sha256_hex(action.canonical_dict())`, and what `getattr` finds on the pipeline and on the
-- interceptor: the result of `policy_loader.reload()`, the audit backend's answer to a tenant and a
-- limit, and the approval workflow's `resolve` of a token, once its arguments are bound.
pub record Interceptor (W Record : Type 0) : Type 0 where
  pub deps : PipelineDeps W
  pub sha256_hex : Action → String
  pub policy_loader : Option (Outcome PolicyBundle)
  pub audit_backend : Option (String → ℕ → List Record)
  pub approval_workflow : Option (String → Outcome (Unit {0}))

-- How Python binds keywords to parameters, before a body runs: each names one, and none that has
-- no default is missing.
abbrev pub binds : List String → List String → List String → Bool
binds required defaulted keywords =
    all (contains (required ++ defaulted)) keywords && all (contains keywords) required

-- `ApprovalWorkflow.resolve(item_id, verdict, resolver, notes=None)`, called with a token and
-- keywords.
abbrev pub call_resolve : (String → Outcome (Unit {0})) → String → List String → Outcome (Unit {0})
call_resolve body token keywords =
    if binds ("verdict" ∷ "resolver" ∷ []) ("notes" ∷ []) keywords
    then body token
    else err Error.type_error

abbrev pub with_digest : (Action → String) → Action → Option String → Action
with_digest sha256_hex action none = record action { payload_digest = some (sha256_hex action) }
with_digest sha256_hex action (some _) = action

unfoldable pub stamped : (Action → String) → Action → Action
stamped sha256_hex action = with_digest sha256_hex action action.payload_digest

abbrev pub timed_at : ℕ → Decision → Option ℕ → Decision
timed_at elapsed decision none = record decision { latency_ms = some elapsed }
timed_at elapsed decision (some _) = decision

abbrev pub timed : ℕ → Outcome Decision → Outcome Decision
timed elapsed (ok decision) = ok (timed_at elapsed decision decision.latency_ms)
timed elapsed (err e) = err e

module _ {W : Type 0} where
  abbrev pub current_policy : PipelineState W → PolicyBundle
  current_policy s = s.bundle

  abbrev pub with_bundle :
      Outcome PolicyBundle → PipelineState W → Outcome PolicyBundle × PipelineState W
  with_bundle (ok bundle) s = (ok bundle, record s { bundle = bundle })
  with_bundle (err e) s = (err e, s)

  unfoldable pub lookup_identity : PipelineState W → String → Option Identity
  lookup_identity s did = elim (resolve s.store did) [ ok i ↦ some i | err _ ↦ none ]

  unfoldable pub upsert_identity : PipelineState W → Identity → Identity × PipelineState W
  upsert_identity s identity = (identity, record s { store = put s.store identity })

module _ {W Record : Type 0} where
  -- `evaluate`; `elapsed` is what its own stopwatch shows.
  unfoldable pub evaluate :
      Interceptor W Record
      → Reading
      → ℕ
      → Action
      → PipelineState W
      → Outcome Decision × PipelineState W
  unfolding stamped
  evaluate i reading elapsed action s =
      let (r, s') = Evaluate.evaluate i.deps reading (stamped i.sha256_hex action) s in
      (timed elapsed r, s')

  unfoldable pub reload_policy :
      Interceptor W Record → PipelineState W → Outcome PolicyBundle × PipelineState W
  reload_policy i s = elim i.policy_loader [
    | none ↦ (err Error.not_implemented, s)
    | some reloaded ↦ with_bundle reloaded s
  ]

  unfoldable pub list_audit : Interceptor W Record → String → ℕ → List Record
  list_audit i tenant_id limit = elim i.audit_backend [
    | none ↦ []
    | some list_recent ↦ list_recent tenant_id limit
  ]

  -- A workflow has no `list_pending`: an `AttributeError`.
  abbrev pub list_pending_approvals : Interceptor W Record → Outcome (List Record)
  list_pending_approvals i = elim i.approval_workflow [ none ↦ ok [] | some _ ↦ err Error.raised ]

  abbrev pub resolve_approval : Interceptor W Record → String → Outcome (Unit {0})
  resolve_approval i token = elim i.approval_workflow [
    | none ↦ err Error.runtime_error
    | some workflow ↦ call_resolve workflow token ("approve" ∷ "approver" ∷ [])
  ]
