-- ===== src/Anomaly.antt =====
-- sentinel/classifiers/anomaly_detector.py. Times are in microseconds; a rate is the quotient of a
-- number of actions and a span, and is compared without rounding.
pub mod Window
use osl_agent_sentinel.Prelude.{
  ℕ, ◌+◌, ◌*◌, ◌/◌, min, max, String, Bool, true, false, ◌&&◌, Option, none, some, List, [], ◌∷◌,
  ◌++◌, length, select, ltb, leb, ◌==◌, ℕ_eq, string_eq, if◌then◌else◌,
}
use osl_agent_sentinel.Prelude.Dict.{Dict, lookup, insert}
use osl_agent_sentinel.Prelude.Text.{concat}
use osl_agent_sentinel.Score.{Score, one, dec4}
use osl_agent_sentinel.Models.Action.{Action, type_value}
use osl_agent_sentinel.Models.Decision.{RiskFactor}

-- One element of the deque: the time, the action type and the tool.
pub record Observation : Type 0 where
  pub time : ℕ
  pub type : String
  pub tool : String

pub record AgentWindow : Type 0 where
  pub actions : List Observation
  pub horizon : ℕ

-- `InMemoryBaselineStore`
pub record BaselineStore : Type 0 where
  pub windows : Dict AgentWindow
  pub horizon : ℕ

-- `AnomalyDetector`, less its store. The spike factor is in the units of a score.
pub record AnomalyDetector : Type 0 where
  pub spike_factor : ℕ
  pub rare_min : ℕ

-- `AnomalyDetector()`
abbrev pub default_detector : AnomalyDetector
default_detector = record { spike_factor = 4 * one; rare_min = 25 }

-- `math.log10(_ + 1)` and `f"{_:.3f}"` of a quotient, and `str` of a count.
pub record Numerals : Type 0 where
  pub log10_plus_one : ℕ → ℕ → Score
  pub fixed3 : ℕ → ℕ → String
  pub str_of_count : ℕ → String

abbrev pub or_new_window : ℕ → Option AgentWindow → AgentWindow
or_new_window horizon none = record { actions = []; horizon = horizon }
or_new_window horizon (some win) = win

-- `get_window`; the window that `setdefault` makes is stored by the `record` of the same call.
abbrev pub get_window : BaselineStore → String → AgentWindow
get_window s agent_did = or_new_window s.horizon (lookup agent_did s.windows)

-- The loop of `record`: `actions[0][0] < now - horizon`.
unfoldable pub drop_old : ℕ → ℕ → List Observation → List Observation
drop_old now horizon [] = []
drop_old now horizon (o ∷ os) =
    let rest = drop_old now horizon os in if ltb (o.time + horizon) now then rest else o ∷ os

abbrev pub text_or_empty : Option String → String
text_or_empty none = ""
text_or_empty (some s) = s

abbrev pub observed : ℕ → Action → Observation
observed now action = record {
  time = now;
  type = type_value action.type;
  tool = text_or_empty action.tool;
}

unfoldable pub record_action : BaselineStore → ℕ → Action → BaselineStore
unfolding drop_old
record_action s now action =
    let win = get_window s action.agent_did in
    record s {
      windows =
          insert action.agent_did
            (record win {
              actions = drop_old now win.horizon (win.actions ++ observed now action ∷ []);
            })
            s.windows;
    }

-- `max(win.horizon_seconds, 1.0)`
abbrev pub span : AgentWindow → ℕ
span win = max win.horizon 1_000_000

-- `n > 50 and rate > spike_factor * (1.0 / 60.0)`
abbrev pub is_spike : AnomalyDetector → AgentWindow → Bool
is_spike d win =
    ltb 50 (length win.actions)
    && ltb (d.spike_factor * span win) (length win.actions * 60_000_000 * one)

unfoldable pub rate_spike : Numerals → AgentWindow → RiskFactor
rate_spike py win =
    let n = length win.actions in
    record {
      code = "anomaly.rate_spike";
      severity = min one (py.log10_plus_one (n * 1_000_000) (span win) / 2);
      detector = "anomaly_detector";
      message = "Agent action rate exceeded expected baseline.";
      evidence =
          ("actions_in_window", py.str_of_count n)
          ∷ ("rate_per_sec", py.fixed3 (n * 1_000_000) (span win))
          ∷ ("references", "OWASP-AGENT-05,OWASP-AGENT-09")
          ∷ [];
    }

unfoldable pub novel_tool : Numerals → AgentWindow → String → RiskFactor
novel_tool py win tool = record {
  code = "anomaly.novel_tool";
  severity = dec4 4000;
  detector = "anomaly_detector";
  message = concat ("First observed use of tool '" ∷ tool ∷ "' by this agent." ∷ []);
  evidence =
      ("tool", tool)
      ∷ ("window_size", py.str_of_count (length win.actions))
      ∷ ("references", "OWASP-AGENT-05")
      ∷ [];
}

abbrev pub check_rate : Numerals → AnomalyDetector → AgentWindow → List RiskFactor
check_rate py d win = if is_spike d win then rate_spike py win ∷ [] else []

abbrev pub check_novelty :
    Numerals → AnomalyDetector → AgentWindow → Option String → List RiskFactor
check_novelty py d win none = []
check_novelty py d win (some tool) =
    if tool == ""
    then []
    else if leb d.rare_min (length win.actions)
        && (length (select (λ o. o.tool == tool) win.actions) == 0)
    then novel_tool py win tool ∷ []
    else []

-- `score`, and its alias `classify`
unfoldable pub score :
    Numerals → AnomalyDetector → ℕ → Action → BaselineStore → List RiskFactor × BaselineStore
unfolding record_action
score py d now action s =
    let win = get_window s action.agent_did in
    (check_rate py d win ++ check_novelty py d win action.tool, record_action s now action)
