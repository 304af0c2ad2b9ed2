-- ===== src/ToolValidator.antt =====
-- sentinel/classifiers/tool_validator.py. `jsonschema.validate` is a parameter.
pub mod Clean
use osl_agent_sentinel.Prelude.{
  ℕ, max, String, Bool, true, false, not, ◌≡◌, ◌≢◌, refl, arith, ◌↔◌, ◌⊎◌, Option, none, some, List,
  [], ◌∷◌, ◌++◌, ◌==◌, string_eq, if◌then◌else◌, Outcome, ok, err, Error,
}
use osl_agent_sentinel.Prelude.Dict.{Dict, lookup, insert}
use osl_agent_sentinel.Prelude.Text.{concat, join}
use osl_agent_sentinel.Score.{Score, one, dec4}
use osl_agent_sentinel.Models.Value.{Fields, no_fields, entry}
use osl_agent_sentinel.Models.Action.{Action}
use osl_agent_sentinel.Models.Decision.{RiskFactor}
use osl_agent_sentinel.Models.Identity.{Identity, has_capability}

pub record ToolSpec : Type 0 where
  pub name : String
  pub capability : String
  pub args_schema : Fields
  pub quarantined : Bool
  pub sensitivity : Score

abbrev pub schema_of : Option Fields → Option Fields → Fields
schema_of (some schema) alias = schema
schema_of none (some schema) = schema
schema_of none none = no_fields

abbrev pub sensitivity_of : Option Score → Option Bool → Score
sensitivity_of (some x) flag = x
sensitivity_of none (some flag) = if flag then one else 0
sensitivity_of none none = 0

-- `ToolSpec(name, capability, args_schema, arg_schema, quarantined, sensitivity, sensitive)`
unfoldable pub new_spec :
    String → String → Option Fields → Option Fields → Bool → Option Score → Option Bool → ToolSpec
new_spec name capability args_schema arg_schema quarantined sensitivity sensitive = record {
  name = name;
  capability = capability;
  args_schema = schema_of args_schema arg_schema;
  quarantined = quarantined;
  sensitivity = sensitivity_of sensitivity sensitive;
}

-- `ToolRegistry.tools`
abbrev pub ToolRegistry : Type 0
ToolRegistry = Dict ToolSpec

unfoldable pub register : ToolRegistry → ToolSpec → ToolRegistry
register tools spec = insert spec.name spec tools

-- `ToolValidator([...])`
unfoldable pub register_all : ToolRegistry → List ToolSpec → ToolRegistry
register_all tools [] = tools
register_all tools (spec ∷ specs) = register_all (register tools spec) specs

-- What `jsonschema.validate` says of arguments and a schema: `invalid` is a `ValidationError` with
-- its message and path, `broken` any other exception.
pub data SchemaCheck : Type 0 where
  valid : SchemaCheck
  invalid : String → List String → SchemaCheck
  broken : Error → SchemaCheck

abbrev pub tool_factor : String → Score → String → Dict String → RiskFactor
tool_factor code severity message evidence = record {
  code = code;
  severity = severity;
  detector = "tool_validator";
  message = message;
  evidence = evidence;
}

unfoldable pub unknown_tool : String → RiskFactor
unknown_tool tool =
    tool_factor "tool.unknown" (dec4 7000)
      (concat ("Tool '" ∷ tool ∷ "' is not registered with sentinel." ∷ []))
      (("references", "OWASP-AGENT-03") ∷ [])

unfoldable pub quarantined_tool : ToolSpec → RiskFactor
quarantined_tool spec =
    tool_factor "tool.quarantined" (dec4 9500)
      (concat ("Tool '" ∷ spec.name ∷ "' is currently quarantined." ∷ []))
      (("references", "OWASP-AGENT-03,OWASP-AGENT-06") ∷ [])

unfoldable pub no_capability : ToolSpec → Identity → RiskFactor
no_capability spec identity =
    tool_factor "tool.no_capability" (max (dec4 6000) spec.sensitivity)
      (concat (
        "Identity " ∷ identity.did ∷ " lacks capability '" ∷ spec.capability
        ∷ "' required to invoke '" ∷ spec.name ∷ "'." ∷ []))
      (("required_capability", spec.capability) ∷ ("references", "OWASP-AGENT-04") ∷ [])

unfoldable pub args_invalid : ToolSpec → String → List String → RiskFactor
args_invalid spec message path =
    tool_factor "tool.args_invalid" (dec4 8000)
      (concat ("Tool arguments failed schema validation: " ∷ message ∷ []))
      (("tool", spec.name) ∷ ("error_path", join "/" path) ∷ ("references", "OWASP-AGENT-03") ∷ [])

abbrev pub check_capability : ℕ → ToolSpec → Option Identity → List RiskFactor
check_capability now spec none = []
check_capability now spec (some i) =
    if not (has_capability now i spec.capability none) then no_capability spec i ∷ [] else []

abbrev pub from_check : ToolSpec → List RiskFactor → SchemaCheck → Outcome (List RiskFactor)
from_check spec factors valid = ok factors
from_check spec factors (invalid message path) = ok (factors ++ args_invalid spec message path ∷ [])
from_check spec factors (broken e) = err e

-- `if spec.args_schema`
abbrev pub is_empty : Fields → Bool
is_empty no_fields = true
is_empty (entry _ _ _) = false

module _ (jsonschema_validate : Fields → Fields → SchemaCheck) (now : ℕ) where
  abbrev pub check_spec : ToolSpec → Action → Option Identity → Outcome (List RiskFactor)
  check_spec spec action identity =
      if spec.quarantined
      then ok (quarantined_tool spec ∷ [])
      else if is_empty spec.args_schema
      then ok (check_capability now spec identity)
      else from_check spec (check_capability now spec identity)
          (jsonschema_validate action.arguments spec.args_schema)

  abbrev pub check_tool :
      String → Option ToolSpec → Action → Option Identity → Outcome (List RiskFactor)
  check_tool tool none action identity = ok (unknown_tool tool ∷ [])
  check_tool tool (some spec) action identity = check_spec spec action identity

  abbrev pub check_named :
      ToolRegistry → Option String → Action → Option Identity → Outcome (List RiskFactor)
  check_named tools none action identity = ok []
  check_named tools (some tool) action identity =
      if tool == "" then ok [] else check_tool tool (lookup tool tools) action identity

  -- `validate`, and its alias `classify`
  unfoldable pub validate : ToolRegistry → Action → Option Identity → Outcome (List RiskFactor)
  validate tools action identity = check_named tools action.tool action identity
