-- ===== src/Models/Action.antt =====
-- sentinel/models/action.py. Ids are texts, a time is a count of microseconds.
use osl_agent_sentinel.Prelude.{
  ℕ, String, Option, none, [], string_eq, ltb, if◌then◌else◌, Outcome, ok, err, Error,
}
use osl_agent_sentinel.Prelude.Text.{text_length}
use osl_agent_sentinel.Prelude.Dict.{Dict}
use osl_agent_sentinel.Models.Value.{Fields}

pub data ActionType : Type 0 where
  tool_call file_write file_read http_request code_execution shell_command : ActionType
  agent_message memory_write memory_read llm_prompt payment notification : ActionType
  database_query agent_handoff other : ActionType

-- `ActionType.value`
unfoldable pub type_value : ActionType → String
type_value tool_call = "tool_call"
type_value file_write = "file_write"
type_value file_read = "file_read"
type_value http_request = "http_request"
type_value code_execution = "code_execution"
type_value shell_command = "shell_command"
type_value agent_message = "agent_message"
type_value memory_write = "memory_write"
type_value memory_read = "memory_read"
type_value llm_prompt = "llm_prompt"
type_value payment = "payment"
type_value notification = "notification"
type_value database_query = "database_query"
type_value agent_handoff = "agent_handoff"
type_value other = "other"

pub record ActionContext : Type 0 where
  pub session_id : String
  pub parent_action_id : Option String
  pub correlation_id : Option String
  pub tenant_id : String
  pub environment : String
  pub invoked_by : Option String
  pub plan_id : Option String
  pub step_index : Option ℕ
  pub tags : Dict String

pub record Action : Type 0 where
  pub id : String
  pub type : ActionType
  pub agent_did : String
  pub tenant_id : String
  pub tool : Option String
  pub arguments : Fields
  pub payload_digest : Option String
  pub intent : Option String
  pub context : ActionContext
  pub created_at : ℕ

-- What the runtime supplies for a new action: the two `uuid4()` and `datetime.now(UTC)`.
pub record Fresh : Type 0 where
  pub id : String
  pub session_id : String
  pub now : ℕ

-- `ActionContext()`
abbrev pub default_context : String → ActionContext
default_context session_id = record {
  session_id = session_id;
  parent_action_id = none;
  correlation_id = none;
  tenant_id = "default";
  environment = "production";
  invoked_by = none;
  plan_id = none;
  step_index = none;
  tags = [];
}

-- `Action(type=..., agent_did=..., ...)`, whose validation wants eight characters in a DID.
unfoldable pub new_action :
    Fresh → ActionType → String → String → Option String → Fields → Option String → Outcome Action
unfolding text_length
new_action fresh type agent_did tenant_id tool arguments intent =
    if ltb (text_length agent_did) 8
    then err Error.raised
    else ok (record {
      id = fresh.id;
      type = type;
      agent_did = agent_did;
      tenant_id = tenant_id;
      tool = tool;
      arguments = arguments;
      payload_digest = none;
      intent = intent;
      context = default_context fresh.session_id;
      created_at = fresh.now;
    })
