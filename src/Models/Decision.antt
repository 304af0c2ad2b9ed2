-- ===== src/Models/Decision.antt =====
-- sentinel/models/decision.py
use osl_agent_sentinel.Prelude.{
  ℕ, String, ◌≡◌, ◌↔◌, arith, Bool, true, false, Option, none, some, List, [], PyEq, ◌==◌,
}
use osl_agent_sentinel.Prelude.Dict.{Dict}
use osl_agent_sentinel.Score.{Score, one}

pub data DecisionVerdict : Type 0 where
  allow deny escalate throttle : DecisionVerdict

abbrev pub verdict_beq : DecisionVerdict → DecisionVerdict → Bool
verdict_beq allow allow = true
verdict_beq deny deny = true
verdict_beq escalate escalate = true
verdict_beq throttle throttle = true
verdict_beq _ _ = false

pub verdict_beq_iff : (v w : DecisionVerdict) → (verdict_beq v w ≡ true) ↔ (v ≡ w)
verdict_beq_iff v w = ground arith

instance abbrev pub verdict_eq : PyEq DecisionVerdict
verdict_eq = record { same = verdict_beq; same_iff = verdict_beq_iff }

pub record RiskFactor : Type 0 where
  pub code : String
  pub severity : Score
  pub detector : String
  pub message : String
  pub evidence : Dict String

pub record DecisionExplanation : Type 0 where
  pub summary : String
  pub triggered_rule_ids : List String
  pub risk_factors : List RiskFactor
  pub risk_score : Score
  pub recommended_remediation : Option String
  pub references : List String

-- What the runtime supplies for a new decision: `uuid4()` and `datetime.now(UTC)`.
pub record Stamp : Type 0 where
  pub id : String
  pub now : ℕ

pub record Decision : Type 0 where
  pub id : String
  pub action_id : String
  pub verdict : DecisionVerdict
  pub decided_at : ℕ
  pub decided_by : String
  pub explanation : DecisionExplanation
  pub latency_ms : Option ℕ
  pub cache_hit : Bool
  pub degraded : Bool

-- `Decision.allowed`
abbrev pub allowed : Decision → Bool
allowed d = d.verdict == allow

-- `Decision.deny`; an action id that is not given is a fresh one.
unfoldable pub deny_decision : Stamp → String → Option String → String → Bool → Decision
deny_decision stamp reason action_id fresh degraded = record {
  id = stamp.id;
  action_id = elim action_id [ none ↦ fresh | some i ↦ i ];
  verdict = deny;
  decided_at = stamp.now;
  decided_by = "sentinel.fail_closed";
  explanation = record {
    summary = reason;
    triggered_rule_ids = [];
    risk_factors = [];
    risk_score = one;
    recommended_remediation = none;
    references = [];
  };
  latency_ms = none;
  cache_hit = false;
  degraded = degraded;
}
