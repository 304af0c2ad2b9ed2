-- ===== src/Approval.antt =====
-- sentinel/core/approval.py with the in-memory backend. An id of a pending approval is a text.
use osl_agent_sentinel.Prelude.{
  ℕ, ◌≡◌, String, Option, none, some, ◌==◌, string_eq, if◌then◌else◌, Outcome, ok, err, Error,
}
use osl_agent_sentinel.Prelude.Dict.{Dict, lookup, insert, lookup-insert}
use osl_agent_sentinel.Models.Action.{Action}
use osl_agent_sentinel.Models.Decision.{Decision, DecisionVerdict}

pub record PendingApproval : Type 0 where
  pub id : String
  pub action : Action
  pub initial_decision : Decision
  pub created_at : ℕ
  pub expires_at : Option ℕ
  pub resolved_at : Option ℕ
  pub resolution : Option DecisionVerdict
  pub resolver : Option String
  pub notes : Option String

-- `InMemoryApprovalBackend._items`
abbrev pub ApprovalBackend : Type 0
ApprovalBackend = Dict PendingApproval

unfoldable pub enqueue_item : ApprovalBackend → PendingApproval → ApprovalBackend
enqueue_item b item = insert item.id item b

abbrev pub resolved_item :
    ℕ → DecisionVerdict → String → Option String → PendingApproval → PendingApproval
resolved_item now verdict resolver notes item = record item {
  resolution = some verdict;
  resolver = some resolver;
  notes = notes;
  resolved_at = some now;
}

abbrev pub resolve_found :
    ApprovalBackend
    → String
    → ℕ
    → DecisionVerdict
    → String
    → Option String
    → Option PendingApproval
    → Outcome PendingApproval × ApprovalBackend
resolve_found b item_id now verdict resolver notes none = (err Error.key_error, b)
resolve_found b item_id now verdict resolver notes (some item) =
    let resolved = resolved_item now verdict resolver notes item in
    (ok resolved, insert item_id resolved b)

-- `resolve`, of the backend and of the workflow, at the time `now`.
unfoldable pub resolve_item :
    ApprovalBackend
    → ℕ
    → String
    → DecisionVerdict
    → String
    → Option String
    → Outcome PendingApproval × ApprovalBackend
resolve_item b now item_id verdict resolver notes =
    resolve_found b item_id now verdict resolver notes (lookup item_id b)

unfoldable pub get_item : ApprovalBackend → String → Option PendingApproval
get_item b item_id = lookup item_id b

-- `submit`, with the id and the time that the runtime supplies.
unfoldable pub submit :
    ApprovalBackend → String → ℕ → Action → Decision → PendingApproval × ApprovalBackend
unfolding enqueue_item
submit b id now action decision =
    let item : PendingApproval = record {
      id = id;
      action = action;
      initial_decision = decision;
      created_at = now;
      expires_at = none;
      resolved_at = none;
      resolution = none;
      resolver = none;
      notes = none;
    } in
    (item, enqueue_item b item)

-- An item that is there can be resolved again: the last verdict is the one that stays, whatever it
-- was before and whether or not the item has expired.
pub resolve-get :
    (b : ApprovalBackend) (now : ℕ) (item_id : String) (verdict : DecisionVerdict)
    (resolver : String) (notes : Option String) (item : PendingApproval) (other : String)
    → get_item b item_id ≡ some item
    → get_item (resolve_item b now item_id verdict resolver notes).1 other ≡ (
        if item_id == other
        then some (resolved_item now verdict resolver notes item)
        else get_item b other)
unfolding get_item resolve_item
resolve-get b now item_id verdict resolver notes item other h =
    rw h (lookup-insert item_id other (resolved_item now verdict resolver notes item) b)
