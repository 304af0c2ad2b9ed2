-- ===== src/Pipeline/Risk/Floor.antt =====
-- One severe risk factor is enough for a high aggregate.
use native.Mathlib.Nat.{mul-le-mul, mul-le-mul_right}
use osl_agent_sentinel.Prelude.{
  ℕ, ◌+◌, ◌-◌, ◌*◌, ◌≤◌, ◌≡◌, arith, Bool, true, List, [], ◌∷◌, any, leb, Bool-cases, inl, inr,
}
use osl_agent_sentinel.Score.{one, dec4, clamp}
use osl_agent_sentinel.Score.Rounding.{le-round_half_even}
use osl_agent_sentinel.Models.Decision.{RiskFactor}
use osl_agent_sentinel.Pipeline.Risk.{Fraction, p_safe, complement, aggregate_risk}
use osl_agent_sentinel.Pipeline.Risk.Bounds.{
  IsProper, Below, unit, scaled, scaled-IsProper, p_safe-IsProper, Below-trans, p_safe-Below,
  aggregate_risk-eq, unit-IsProper,
}

-- 1 - n / 10000, as a fraction.
abbrev rest_of : ℕ → Fraction
rest_of n = record { num = one - dec4 n; den = one }

-- Some factor has severity n / 10000 or more.
abbrev pub has_severity : ℕ → List RiskFactor → Bool
has_severity n = any (λ f. leb (dec4 n) f.severity)

scaled-Below-rest_of :
    (n : ℕ) (p : Fraction) (f : RiskFactor)
    → IsProper p
    → dec4 n ≤ f.severity
    → Below (scaled p f) (rest_of n)
scaled-Below-rest_of n p f h s =
    let small : p.num * (one - clamp f.severity) ≤ p.den * (one - dec4 n) =
      mul-le-mul h.le (omega arith) in
    omega arith

p_safe-Below-rest_of :
    (n : ℕ) (p : Fraction) (fs : List RiskFactor)
    → IsProper p
    → has_severity n fs ≡ true
    → Below (p_safe p fs) (rest_of n)
unfolding p_safe
p_safe-Below-rest_of n p [] h s = cc
p_safe-Below-rest_of n p (f ∷ fs) h s =
    let q = scaled p f in
    let w = scaled-IsProper p f h in
    elim (Bool-cases (leb (dec4 n) f.severity)) [
      | inl here ↦
          Below-trans (p_safe q fs) q (rest_of n) w.pos (p_safe-Below q fs w)
            (scaled-Below-rest_of n p f h (ground arith))
      | inr there ↦ p_safe-Below-rest_of n q fs w (rw there at s)
    ]

complement-floor :
    (n : ℕ) (p : Fraction) → n ≤ 10000 → IsProper p → Below p (rest_of n) → dec4 n ≤ complement p
complement-floor n p small h le =
    let split : (one - dec4 n + dec4 n) * p.den ≤ one * p.den =
      mul-le-mul_right p.den (omega arith) in
    let rounded =
      le-round_half_even ((p.den - p.num) * 10000) p.den n h.pos (omega (arith, h.le)) in
    omega arith

-- The aggregate is at least the severity of each factor, as far as that reaches n / 10000.
pub aggregate_risk-floor :
    (n : ℕ) (fs : List RiskFactor)
    → n ≤ 10000
    → has_severity n fs ≡ true
    → dec4 n ≤ aggregate_risk fs
aggregate_risk-floor n fs small s = rw aggregate_risk-eq (
    complement-floor n (p_safe unit fs) small (p_safe-IsProper unit fs unit-IsProper)
      (p_safe-Below-rest_of n unit fs unit-IsProper s))
