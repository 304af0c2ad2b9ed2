-- ===== src/Pipeline/Risk.antt =====
-- `_aggregate_risk`, `_remediation`, `_refs_for` and `_unique` of sentinel/core/pipeline.py. The
-- product of the complements is kept as an exact fraction and rounded once, as the source does.
pub mod Bounds
pub mod Floor
use osl_agent_sentinel.Prelude.{
  ℕ, ◌-◌, ◌*◌, String, not, ◌&&◌, Option, none, some, List, [], ◌∷◌, ◌++◌, contains, ltb, ◌==◌,
  string_eq, if◌then◌else◌,
}
use osl_agent_sentinel.Prelude.Text.{split, concat}
use osl_agent_sentinel.Prelude.Dict.{lookup}
use osl_agent_sentinel.Score.{Score, one, dec4, clamp, round_half_even}
use osl_agent_sentinel.Models.Decision.{DecisionVerdict, RiskFactor}

pub record Fraction : Type 0 where
  pub num : ℕ
  pub den : ℕ

-- `p_safe` after the loop.
unfoldable pub p_safe : Fraction → List RiskFactor → Fraction
p_safe p [] = p
p_safe p (f ∷ fs) = p_safe (record { num = p.num * (one - clamp f.severity); den = p.den * one }) fs

-- `round(1.0 - p_safe, 4)`
abbrev pub complement : Fraction → Score
complement p = dec4 (round_half_even ((p.den - p.num) * 10000) p.den)

unfoldable pub aggregate_risk : List RiskFactor → Score
unfolding p_safe
aggregate_risk [] = 0
aggregate_risk (f ∷ fs) = complement (p_safe (record { num = 1; den = 1 }) (f ∷ fs))

-- `max(factors, key=lambda f: f.severity)`: the first of the greatest.
unfoldable pub top_factor : RiskFactor → List RiskFactor → RiskFactor
top_factor best [] = best
top_factor best (f ∷ fs) = top_factor (if ltb best.severity f.severity then f else best) fs

unfoldable pub remediation : DecisionVerdict → List RiskFactor → Option String
unfolding top_factor concat
remediation DecisionVerdict.allow factors = none
remediation verdict [] = some "Review the triggered policy rule(s) and adjust agent behavior."
remediation verdict (f ∷ fs) =
    let top = top_factor f fs in
    some (concat ("Top risk factor: " ∷ top.code ∷ " (" ∷ top.detector ∷ "). " ∷ top.message ∷ []))

unfoldable pub refs_for : RiskFactor → List String
unfolding split lookup
refs_for f = elim (lookup "references" f.evidence) [
  | none ↦ []
  | some refs ↦ if refs == "" then [] else split b',' refs
]

unique_from : List String → List String → List String
unique_from out [] = out
unique_from out (item ∷ items) =
    unique_from (if not (item == "") && not (contains out item) then out ++ item ∷ [] else out)
      items

-- `_unique`; the list `out` holds what the set `seen` holds.
unfoldable pub unique : List String → List String
unfolding unique_from
unique items = unique_from [] items

unfoldable pub all_refs : List RiskFactor → List String
unfolding refs_for
all_refs [] = []
all_refs (f ∷ fs) = refs_for f ++ all_refs fs
