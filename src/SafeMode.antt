-- ===== src/SafeMode.antt =====
-- sentinel/resilience/safe_mode.py
use osl_agent_sentinel.Prelude.{
  ◌≡◌, ◌↔◌, arith, String, Bool, true, false, Option, none, some, List, [], ◌∷◌, any, map, ◌==◌,
  string_eq, if◌then◌else◌,
}
use osl_agent_sentinel.Score.{one}
use osl_agent_sentinel.Models.Action.{Action, ActionType, type_value}
use osl_agent_sentinel.Models.Decision.{DecisionVerdict, RiskFactor, Stamp, Decision}
use osl_agent_sentinel.Pipeline.Evaluate.{is_read_only}

pub record SafeModeConfig : Type 0 where
  pub allow_action_types : List ActionType
  pub reason : String

abbrev pub default_config : SafeModeConfig
default_config = record {
  allow_action_types = ActionType.memory_read ∷ ActionType.file_read ∷ ActionType.llm_prompt ∷ [];
  reason = "sentinel safe-mode: upstream control plane unavailable";
}

-- `action.type in cfg.allow_action_types`; action types are compared by their values.
abbrev pub is_listed : SafeModeConfig → ActionType → Bool
is_listed cfg type = any (λ t. type_value t == type_value type) cfg.allow_action_types

unfoldable pub safe_mode_factor : SafeModeConfig → Action → RiskFactor
safe_mode_factor cfg action = record {
  code = "safe_mode.deny";
  severity = one;
  detector = "safe_mode";
  message = cfg.reason;
  evidence = ("action_type", type_value action.type) ∷ [];
}

unfoldable pub safe_mode_allow : Stamp → Action → Decision
safe_mode_allow stamp action = record {
  id = stamp.id;
  action_id = action.id;
  verdict = DecisionVerdict.allow;
  decided_at = stamp.now;
  decided_by = "sentinel.safe_mode";
  explanation = record {
    summary = "safe-mode allow (read-only verb)";
    triggered_rule_ids = [];
    risk_factors = [];
    risk_score = 0;
    recommended_remediation = none;
    references = [];
  };
  latency_ms = none;
  cache_hit = false;
  degraded = true;
}

unfoldable pub safe_mode_deny : SafeModeConfig → Stamp → Action → Decision
safe_mode_deny cfg stamp action = record {
  id = stamp.id;
  action_id = action.id;
  verdict = DecisionVerdict.deny;
  decided_at = stamp.now;
  decided_by = "sentinel.safe_mode";
  explanation = record {
    summary = cfg.reason;
    triggered_rule_ids = [];
    risk_factors = safe_mode_factor cfg action ∷ [];
    risk_score = one;
    recommended_remediation = none;
    references = [];
  };
  latency_ms = none;
  cache_hit = false;
  degraded = true;
}

abbrev pub config_or_default : Option SafeModeConfig → SafeModeConfig
config_or_default none = default_config
config_or_default (some cfg) = cfg

unfoldable pub evaluate_safe_mode : Stamp → Action → Option SafeModeConfig → Decision
unfolding safe_mode_allow safe_mode_deny
evaluate_safe_mode stamp action config =
    let cfg = config_or_default config in
    if is_listed cfg action.type
    then safe_mode_allow stamp action
    else safe_mode_deny cfg stamp action

-- `safe_mode_decisions`, with the stamp that each decision gets.
unfoldable pub safe_mode_decisions : List (Stamp × Action) → Option SafeModeConfig → List Decision
unfolding evaluate_safe_mode
safe_mode_decisions actions config =
    map (λ (stamp, action). evaluate_safe_mode stamp action config) actions

-- Safe mode without a configuration of its own allows exactly the types that the pipeline treats as
-- read-only for an OBSERVE identity, and flags every decision as degraded.
pub evaluate_safe_mode-read_only :
    (stamp : Stamp) (action : Action)
    → (((evaluate_safe_mode stamp action none).verdict ≡ DecisionVerdict.allow)
        ↔ (is_read_only action.type ≡ true))
      × ((evaluate_safe_mode stamp action none).degraded ≡ true)
unfolding evaluate_safe_mode type_value
evaluate_safe_mode-read_only stamp action = ground arith
