-- ===== src/McpValidators.antt =====
-- sentinel/gateway/mcp_validators.py. `urlparse(_).path` and `str.lower` are parameters.
pub mod Lookalike
use Prim.Native.Char.{Char, code}
use osl_agent_sentinel.Prelude.{
  String, Bool, false, not, ◌&&◌, ◌||◌, Option, none, some, List, [], ◌∷◌, ◌++◌, any, contains, leb,
  ltb, ◌==◌, string_eq, if◌then◌else◌,
}
use osl_agent_sentinel.Prelude.Dict.{Dict}
use osl_agent_sentinel.Prelude.Text.{is_in, take_chars}
use osl_agent_sentinel.Score.{Score, one, dec4}
use osl_agent_sentinel.Models.Value.{Value, str, Fields, get_field}
use osl_agent_sentinel.Models.Decision.{RiskFactor}

pub record McpInvocation : Type 0 where
  pub tool : String
  pub arguments : Fields
  pub declared_capability : Option String
  pub resource_uri : Option String

abbrev pub mcp_factor : String → Score → String → Dict String → RiskFactor
mcp_factor code severity message evidence = record {
  code = code;
  severity = severity;
  detector = "mcp_validators";
  message = message;
  evidence = evidence;
}

-- `ord(c) < 0x20 or 0x200B <= ord(c) <= 0x200F`
abbrev pub is_control : Char → Bool
is_control c = ltb (code c) 32 || (leb 8203 (code c) && leb (code c) 8207)

unfoldable pub has_control : String → Bool
has_control String.[] = false
has_control (String.◌∷◌ c s) = is_control c || has_control s

-- `name.encode("ascii", "ignore").decode("ascii")`
unfoldable pub ascii_of : String → String
ascii_of String.[] = ""
ascii_of (String.◌∷◌ c s) =
    let rest = ascii_of s in if ltb (code c) 128 then String.◌∷◌ c rest else rest

abbrev pub control_chars : String → List RiskFactor
control_chars name =
    if has_control name
    then mcp_factor "mcp.tool_name.control_chars" (dec4 9500)
        "Tool name contains control or zero-width characters." (("tool", name) ∷ [])
      ∷ []
    else []

abbrev pub lookalike : String → List String → List RiskFactor
lookalike name allowed_names =
    if not (contains allowed_names name)
      && (not (ascii_of name == name) && contains allowed_names (ascii_of name))
    then mcp_factor "mcp.tool_name.lookalike" one
        "Tool name matches an allowed tool after Unicode-stripping."
        (("tool", name) ∷ ("matches", ascii_of name) ∷ [])
      ∷ []
    else []

unfoldable pub detect_tool_name_collision : McpInvocation → List String → List RiskFactor
detect_tool_name_collision invocation allowed_names =
    if invocation.tool == ""
    then mcp_factor "mcp.tool_name.empty" one "MCP invocation arrived with an empty tool name." []
      ∷ []
    else control_chars invocation.tool ++ lookalike invocation.tool allowed_names

-- `uri`, where it is a text
abbrev pub text_of : Option Value → String
text_of (some (str s)) = s
text_of _ = ""

-- `invocation.resource_uri or invocation.arguments.get("resource") or ""`; what is no text counts
-- as empty, since the next test drops both.
abbrev pub uri_of : Option String → Fields → String
uri_of none arguments = text_of (get_field "resource" arguments)
uri_of (some uri) arguments = if uri == "" then text_of (get_field "resource" arguments) else uri

abbrev pub suspicious : List String
suspicious = "../" ∷ "..\\" ∷ "/etc/" ∷ "/proc/" ∷ "/root/" ∷ "%2e%2e" ∷ "%2f.." ∷ []

module _ (url_path lower : String → String) where
  -- `parsed.path or uri`
  abbrev pub path_of : String → String
  path_of uri = if url_path uri == "" then uri else url_path uri

  unfoldable pub detect_resource_traversal : McpInvocation → List RiskFactor
  detect_resource_traversal invocation =
      let uri = uri_of invocation.resource_uri invocation.arguments in
      if uri == ""
      then []
      else if any (λ s. is_in s (lower (path_of uri))) suspicious
      then mcp_factor "mcp.resource.traversal" one
          "Resource URI contains traversal or sensitive-path indicators."
          (("uri", take_chars 512 uri) ∷ [])
        ∷ []
      else []

abbrev pub spoofed : Option String → Option String → List RiskFactor
spoofed (some declared) (some expected) =
    if not (declared == "") && (not (expected == "") && not (declared == expected))
    then mcp_factor "mcp.capability.spoof" (dec4 9500)
        "Declared capability does not match the registered one for this tool."
        (("declared", declared) ∷ ("expected", expected) ∷ [])
      ∷ []
    else []
spoofed _ _ = []

unfoldable pub detect_capability_spoofing : McpInvocation → Option String → List RiskFactor
detect_capability_spoofing invocation expected = spoofed invocation.declared_capability expected

module _ (url_path lower : String → String) where
  unfoldable pub validate_invocation : McpInvocation → List String → Option String → List RiskFactor
  unfolding detect_tool_name_collision detect_resource_traversal detect_capability_spoofing
  validate_invocation invocation allowed_names expected =
      detect_tool_name_collision invocation allowed_names
      ++ (detect_resource_traversal url_path lower invocation
          ++ detect_capability_spoofing invocation expected)
