-- ===== src/Examples/Validators.antt =====
-- The validators of MCP calls at concrete inputs.
use osl_agent_sentinel.Prelude.{◌≡◌, ◌≤◌, false, ◌≢◌, refl, arith, none, [], ◌∷◌}
use osl_agent_sentinel.Models.Value.{no_fields}
use osl_agent_sentinel.McpValidators.{McpInvocation, has_control, detect_tool_name_collision}
use osl_agent_sentinel.Prelude.Text.{text_length}
use osl_agent_sentinel.McpValidators.Lookalike.{detect_tool_name_collision-substituted}

-- "pay", its second letter the Cyrillic one
abbrev substituted : McpInvocation
substituted = record {
  tool = "pаy";
  arguments = no_fields;
  declared_capability = none;
  resource_uri = none;
}

printable : has_control "pаy" ≡ false
unfolding has_control
printable = refl

long : text_length "pаy" ≤ text_length "pay"
unfolding text_length
long = omega arith

named : substituted.tool ≢ ""
named = λ e. cc

detect_tool_name_collision-substituted_example :
    detect_tool_name_collision substituted ("pay" ∷ []) ≡ []
detect_tool_name_collision-substituted_example =
    detect_tool_name_collision-substituted substituted ("pay" ∷ []) named printable (long, tt)
