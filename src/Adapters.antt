-- ===== src/Adapters.antt =====
-- sentinel/adapters: kong.py, aws_apigw.py and envoy.py. The interceptor is a parameter, and a
-- request is a dict of JSON values; a missing or ill-typed part raises where Python does.
pub mod Pass
use osl_agent_sentinel.Prelude.{
  ℕ, zero, suc, String, string_eq, Option, none, some, [], ◌∷◌, ◌==◌, if◌then◌else◌, Outcome, ok,
  err, ◌>>=◌, Error,
}
use osl_agent_sentinel.Prelude.Text.{concat, take_chars}
use osl_agent_sentinel.Runtime.{Library}
use osl_agent_sentinel.Models.Value.{
  is_truthy, Value, null, str, dict, list, Items, no_items, item, Fields, no_fields, entry,
  get_field,
}
use osl_agent_sentinel.Models.Action.{Action, ActionType, Fresh, new_action}
use osl_agent_sentinel.Models.Decision.{
  DecisionVerdict, allow, deny, escalate, throttle, verdict_eq, DecisionExplanation, Decision,
}
use osl_agent_sentinel.PolicyEngine.{to_str}

-- `DecisionVerdict.value`
unfoldable pub verdict_value : DecisionVerdict → String
verdict_value allow = "allow"
verdict_value deny = "deny"
verdict_value escalate = "escalate"
verdict_value throttle = "throttle"

-- `d.get(key, default)`
abbrev pub get_or : Fields → String → Value → Value
get_or fields key default = elim (get_field key fields) [ none ↦ default | some v ↦ v ]

-- What the validation of an `Action` makes of a value for a text, and for an optional one.
abbrev pub as_text : Value → Outcome String
as_text (str s) = ok s
as_text _ = err Error.raised

abbrev pub as_optional_text : Value → Outcome (Option String)
as_optional_text null = ok none
as_optional_text (str s) = ok (some s)
as_optional_text _ = err Error.raised

-- A value whose `get` is called.
abbrev pub as_dict : Value → Outcome Fields
as_dict (dict fields) = ok fields
as_dict _ = err Error.raised

-- The first items of a list.
unfoldable pub take_items : ℕ → Items → Items
take_items zero items = no_items
take_items (suc n) no_items = no_items
take_items (suc n) (item v items) = item v (take_items n items)

-- `v or {}`
abbrev pub or_no_fields : Value → Value
or_no_fields v = if is_truthy v then v else dict no_fields

abbrev pub method_and_path : Library → Value → Value → String
method_and_path py method path = concat (to_str py method ∷ " " ∷ to_str py path ∷ [])

-- The action of an HTTP request, from the values for its agent and its intent.
abbrev pub http_action : Fresh → Value → String → Fields → Value → Outcome Action
unfolding new_action
http_action fresh agent_did tool arguments intent = as_text agent_did >>= λ did.
    as_optional_text intent >>= λ purpose.
    new_action fresh ActionType.http_request did "default" (some tool) arguments purpose

unfoldable pub kong_action : Library → Fresh → Fields → Outcome Action
unfolding http_action
kong_action py fresh kong_ctx =
    http_action fresh (get_or kong_ctx "agent_did" (str "did:unknown:anonymous"))
      (method_and_path py (get_or kong_ctx "method" (str "GET")) (get_or kong_ctx "path" (str "/")))
      (entry "headers" (get_or kong_ctx "headers" (dict no_fields)) (
        entry "query" (get_or kong_ctx "query" (dict no_fields)) (
          entry "body_preview" (str (take_chars 4096 (to_str py (get_or kong_ctx "body" (str "")))))
            no_fields)))
      (get_or kong_ctx "intent" null)

unfoldable pub aws_action : Library → Fresh → Fields → Outcome Action
unfolding http_action
aws_action py fresh event = as_dict (get_or event "headers" (dict no_fields)) >>= λ headers.
    http_action fresh (get_or headers "x-agent-did" (str "did:unknown:anonymous"))
      (method_and_path py (get_or event "httpMethod" (str "GET")) (get_or event "path" (str "/")))
      (entry "headers" (dict headers)
        (entry "query" (or_no_fields (get_or event "queryStringParameters" null)) no_fields))
      (get_or headers "x-agent-intent" null)

-- The status, the explanation in the body of a refusal, and `x-sentinel-decision`.
pub record KongReply : Type 0 where
  pub status : ℕ
  pub explanation : Option DecisionExplanation
  pub decision_header : String

unfoldable pub kong_reply : Decision → KongReply
unfolding verdict_value
kong_reply decision =
    if decision.verdict == allow
    then record { status = 200; explanation = none; decision_header = "allow" }
    else record {
      status = 403;
      explanation = some decision.explanation;
      decision_header = verdict_value decision.verdict;
    }

-- `principalId`, the statement of the policy document, and the context.
pub record AuthorizerReply : Type 0 where
  pub principal_id : String
  pub effect : String
  pub resource : Value
  pub sentinel_decision : String
  pub explanation : String

unfoldable pub aws_reply : Fields → Action → Decision → AuthorizerReply
unfolding verdict_value
aws_reply event action decision = record {
  principal_id = action.agent_did;
  effect = if decision.verdict == allow then "Allow" else "Deny";
  resource = get_or event "methodArn" (str "*");
  sentinel_decision = verdict_value decision.verdict;
  explanation = take_chars 1024 decision.explanation.summary;
}

-- `d.get(key, {})`
abbrev pub get_dict : Fields → String → Value
get_dict fields key = get_or fields key (dict no_fields)

-- `v[:4096]` of a value that can be sliced.
abbrev pub slice_body : Value → Outcome Value
slice_body (str s) = ok (str (take_chars 4096 s))
slice_body (list items) = ok (list (take_items 4096 items))
slice_body _ = err Error.type_error

unfoldable pub envoy_action : Library → Fresh → Fields → Outcome Action
unfolding http_action
envoy_action py fresh check_request =
    as_dict (get_dict check_request "attributes") >>= λ attributes.
    as_dict (get_dict attributes "request") >>= λ request.
    as_dict (get_dict request "http") >>= λ attrs. as_dict (get_dict attrs "headers") >>= λ headers.
    slice_body (get_or attrs "body" (str "")) >>= λ body.
    http_action fresh (get_or headers "x-agent-did" (str "did:unknown:anonymous"))
      (method_and_path py (get_or attrs "method" (str "GET")) (get_or attrs "path" (str "/")))
      (entry "headers" (dict headers) (entry "body" body no_fields))
      (get_or headers "x-agent-intent" null)

-- The code of the status; for a refusal, the status of the response and its decision header.
pub record CheckResponse : Type 0 where
  pub code : ℕ
  pub denied_status : Option ℕ
  pub sentinel_header : Option String

unfoldable pub envoy_reply : Decision → CheckResponse
unfolding verdict_value
envoy_reply decision =
    if decision.verdict == allow
    then record { code = 0; denied_status = none; sentinel_header = none }
    else record {
      code = 7;
      denied_status = some 403;
      sentinel_header = some (verdict_value decision.verdict);
    }

module _ {W : Type 0} (evaluate : Action → W → Outcome Decision × W) where
  -- What the interceptor decides for an action that could be built.
  abbrev pub decided : Outcome Action → W → Outcome (Action × Decision) × W
  decided (ok action) w =
      let (d, w') = evaluate action w in
      (elim d [ ok decision ↦ ok (action, decision) | err e ↦ err e ], w')
  decided (err e) w = (err e, w)

  -- `KongPluginAdapter.authorize`
  unfoldable pub kong_authorize : Library → Fresh → Fields → W → Outcome KongReply × W
  unfolding kong_action kong_reply
  kong_authorize py fresh kong_ctx w =
      let (answer, w') = decided (kong_action py fresh kong_ctx) w in
      (answer >>= (λ (action, decision). ok (kong_reply decision)), w')

  -- `AWSAPIGatewayAdapter.authorize`
  unfoldable pub aws_authorize : Library → Fresh → Fields → W → Outcome AuthorizerReply × W
  unfolding aws_action aws_reply
  aws_authorize py fresh event w =
      let (answer, w') = decided (aws_action py fresh event) w in
      (answer >>= (λ (action, decision). ok (aws_reply event action decision)), w')

  -- `EnvoyExtAuthzAdapter.check`
  unfoldable pub envoy_check : Library → Fresh → Fields → W → Outcome CheckResponse × W
  unfolding envoy_action envoy_reply
  envoy_check py fresh check_request w =
      let (answer, w') = decided (envoy_action py fresh check_request) w in
      (answer >>= (λ (action, decision). ok (envoy_reply decision)), w')
