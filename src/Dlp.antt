-- ===== src/Dlp.antt =====
-- sentinel/dlp/scanner.py. The search of a compiled pattern is a parameter: it gives the text of the
-- first match, if there is one.
pub mod Found
pub mod Redact
use Prim.Native.String
use osl_agent_sentinel.Prelude.{
  ℕ, zero, suc, ◌-◌, String, Bool, true, false, Option, none, some, List, [], ◌∷◌, ◌++◌, leb,
  if◌then◌else◌,
}
use osl_agent_sentinel.Prelude.Text.{text_length, take_chars, drop_chars}
use osl_agent_sentinel.Score.{Score, dec4}
use osl_agent_sentinel.Models.Action.{Action}
use osl_agent_sentinel.Models.Decision.{RiskFactor}
use osl_agent_sentinel.Models.Texts.{iter_text}

pub record DlpRule : Type 0 where
  pub code : String
  pub pattern : String
  pub severity : Score
  pub message : String
  pub references : String

-- `DLPRuleSet`
abbrev pub DlpRuleSet : Type 0
DlpRuleSet = List DlpRule

-- `extend`
abbrev pub extend_rules : DlpRuleSet → List DlpRule → DlpRuleSet
extend_rules rules more = rules ++ more

abbrev pub dlp_rule : String → String → Score → String → DlpRule
dlp_rule code pattern severity message = record {
  code = code;
  pattern = pattern;
  severity = severity;
  message = message;
  references = "OWASP-AGENT-04";
}

abbrev pub default_rules : DlpRuleSet
default_rules =
    dlp_rule "dlp.aws_access_key" "\\bAKIA[0-9A-Z]{16}\\b" (dec4 9_500)
      "AWS access key identifier detected in payload."
    ∷ dlp_rule "dlp.private_key_block" "-----BEGIN (?:RSA |EC |OPENSSH |DSA |)PRIVATE KEY-----"
        (dec4 10_000) "Private-key block detected in payload."
    ∷ dlp_rule "dlp.bearer_token" "(?i)\\bbearer\\s+[A-Za-z0-9_\\-\\.=]{20,}\\b" (dec4 7_000)
        "Bearer token detected in payload."
    ∷ dlp_rule "dlp.email" "[A-Za-z0-9._%+\\-]+@[A-Za-z0-9.\\-]+\\.[A-Za-z]{2,}" (dec4 1_500)
        "Email address detected in payload."
    ∷ dlp_rule "dlp.credit_card" "\\b(?:\\d[ -]*?){13,19}\\b" (dec4 6_000)
        "Numeric sequence matching a payment-card length detected."
    ∷ dlp_rule "dlp.us_ssn" "\\b\\d{3}-\\d{2}-\\d{4}\\b" (dec4 7_000)
        "US-style SSN pattern detected."
    ∷ []

pub record DlpScanner : Type 0 where
  pub rules : DlpRuleSet
  pub enabled : Bool

abbrev pub or_default_rules : Option DlpRuleSet → DlpRuleSet
or_default_rules none = default_rules
or_default_rules (some rules) = rules

-- `DLPScanner(rule_set, enabled=...)`; a rule set that is given counts as true even if it is empty.
abbrev pub new_dlp_scanner : Option DlpRuleSet → Bool → DlpScanner
new_dlp_scanner rule_set enabled = record { rules = or_default_rules rule_set; enabled = enabled }

-- `"*" * n`
unfoldable pub stars : ℕ → String
stars zero = ""
stars (suc n) = String.◌∷◌ "*" (stars n)

-- `_redact`
unfoldable pub redact : String → String
unfolding stars text_length take_chars drop_chars
redact s =
    if leb (text_length s) 8
    then stars (text_length s)
    else String.◌++◌ (take_chars 2 s)
        (String.◌++◌ (stars (text_length s - 4)) (drop_chars (text_length s - 2) s))

abbrev pub dlp_factor : DlpRule → String → RiskFactor
dlp_factor r found = record {
  code = r.code;
  severity = r.severity;
  detector = "dlp_scanner";
  message = r.message;
  evidence = ("snippet", take_chars 64 (redact found)) ∷ ("references", r.references) ∷ [];
}

module _ (search : String → String → Option String) where
  abbrev pub found_factor : DlpRule → Option String → List RiskFactor → List RiskFactor
  found_factor r none rest = rest
  found_factor r (some found) rest = dlp_factor r found ∷ rest

  -- The rules over one text.
  unfoldable pub scan_text : String → List DlpRule → List RiskFactor
  scan_text text [] = []
  scan_text text (r ∷ rules) = found_factor r (search r.pattern text) (scan_text text rules)

  -- The texts, one after the other.
  unfoldable pub scan_texts : List DlpRule → List String → List RiskFactor
  unfolding scan_text
  scan_texts rules [] = []
  scan_texts rules (text ∷ texts) = scan_text text rules ++ scan_texts rules texts

  -- `DLPScanner.scan`
  unfoldable pub scan_payload : DlpScanner → Action → List RiskFactor
  unfolding scan_texts iter_text
  scan_payload scanner action =
      if scanner.enabled then scan_texts scanner.rules (iter_text action) else []
