-- ===== src/Gateway.antt =====
-- sentinel/gateway/mcp_gateway.py: an evaluation by the interceptor, then the tool. The tools act on
-- a world of their own.
pub mod Safety
use osl_agent_sentinel.Prelude.{
  ℕ, String, Bool, true, false, not, Option, none, some, ◌==◌, string_eq, if◌then◌else◌, Outcome,
  ok, err, Error,
}
use osl_agent_sentinel.Models.Value.{Fields, no_fields}
use osl_agent_sentinel.Models.Action.{Action, ActionType, Fresh, new_action}
use osl_agent_sentinel.Models.Decision.{DecisionVerdict, verdict_eq, Decision}
use osl_agent_sentinel.Pipeline.Evaluate.{PipelineState, Reading}
use osl_agent_sentinel.Interceptor
use osl_agent_sentinel.Interceptor.{Interceptor}

-- `ToolHandler`: a name and arguments to an output, in the world of the tools.
abbrev pub ToolHandler : Type 0 → Type 0 → Type 0
ToolHandler T Output = String → Fields → T → Outcome Output × T

pub record GatewayResult (Output : Type 0) : Type 0 where
  pub decision : Decision
  pub output : Option Output
  pub blocked : Bool

-- How `invoke` ends; `denied` is a `ToolDeniedError` with its decision.
pub data Invoked (Output : Type 0) : Type 0 where
  returned : Option Output → Invoked Output
  denied : Decision → Invoked Output
  failed : Error → Invoked Output

-- The keyword arguments of `evaluate` and `invoke`, less the executor.
pub record ToolCall : Type 0 where
  pub tool : String
  pub args : Option Fields
  pub principal_did : Option String
  pub agent_did : Option String
  pub tenant_id : String
  pub intent : Option String

-- `a or b`, for a text that may be missing or empty
abbrev pub or_text : Option String → String → String
or_text none b = b
or_text (some a) b = if a == "" then b else a

-- `args or {}`
abbrev pub or_empty : Option Fields → Fields
or_empty none = no_fields
or_empty (some fs) = fs

abbrev pub principal : ToolCall → String
principal c = or_text c.principal_did (or_text c.agent_did "did:anon:unknown")

unfoldable pub action_for : Fresh → ToolCall → Outcome Action
action_for fresh c =
    new_action fresh ActionType.tool_call (principal c) c.tenant_id (some c.tool) (or_empty c.args)
      c.intent

module _ {Output : Type 0} where
  abbrev pub tool_result : Decision → Outcome Output → Outcome (GatewayResult Output)
  tool_result dec (ok out) = ok (record { decision = dec; output = some out; blocked = false })
  tool_result dec (err e) = err e

  abbrev pub outcome_of : Outcome (GatewayResult Output) → Invoked Output
  outcome_of (ok r) = if r.blocked then denied r.decision else returned r.output
  outcome_of (err e) = failed e

module _ {T Output : Type 0} where
  -- `executor or self._handler`
  abbrev pub runner :
      Option (ToolHandler T Output) → Option (ToolHandler T Output) → Option (ToolHandler T Output)
  runner none handler = handler
  runner (some f) handler = some f

  abbrev pub run_tool :
      Option (ToolHandler T Output) → ToolCall → Decision → T → Outcome (GatewayResult Output) × T
  run_tool none c dec t = (err Error.runtime_error, t)
  run_tool (some f) c dec t =
      let (out, t') = f c.tool (or_empty c.args) t in (tool_result dec out, t')

  -- `evaluate`, once the interceptor has answered or raised.
  abbrev pub after_decision :
      Option (ToolHandler T Output)
      → ToolCall
      → Outcome Decision
      → T
      → Outcome (GatewayResult Output) × T
  after_decision f c (err e) t = (err e, t)
  after_decision f c (ok dec) t =
      if not (dec.verdict == DecisionVerdict.allow)
      then (ok (record { decision = dec; output = none; blocked = true }), t)
      else run_tool f c dec t

-- An `MCPGateway`: its interceptor and its default handler.
pub record McpGateway (W Record T Output : Type 0) : Type 0 where
  pub interceptor : Interceptor W Record
  pub handler : Option (ToolHandler T Output)

module _ {W Record T Output : Type 0} where
  -- The interceptor's answer to an action that could be built.
  unfoldable pub decision_on :
      McpGateway W Record T Output
      → Reading
      → ℕ
      → Outcome Action
      → PipelineState W
      → Outcome Decision × PipelineState W
  decision_on g reading elapsed (ok action) s =
      Interceptor.evaluate g.interceptor reading elapsed action s
  decision_on g reading elapsed (err e) s = (err e, s)

  unfoldable pub evaluate :
      McpGateway W Record T Output
      → Fresh
      → Reading
      → ℕ
      → ToolCall
      → Option (ToolHandler T Output)
      → PipelineState W × T
      → Outcome (GatewayResult Output) × PipelineState W × T
  unfolding action_for decision_on
  evaluate g fresh reading elapsed c executor (s, t) =
      let (answer, s') = decision_on g reading elapsed (action_for fresh c) s in
      let (r, t') = after_decision (runner executor g.handler) c answer t in (r, s', t')

  unfoldable pub invoke :
      McpGateway W Record T Output
      → Fresh
      → Reading
      → ℕ
      → ToolCall
      → Option (ToolHandler T Output)
      → PipelineState W × T
      → Invoked Output × PipelineState W × T
  unfolding evaluate
  invoke g fresh reading elapsed c executor w =
      let (r, s', t') = evaluate g fresh reading elapsed c executor w in (outcome_of r, s', t')
