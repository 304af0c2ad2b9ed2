-- ===== src/Pipeline/Risk/Bounds.antt =====
-- Bounds of the aggregate risk score.
use native.Mathlib.Nat.{mul-le-mul, mul-le-mul_right, le_of_mul-le-mul_right}
use osl_agent_sentinel.Prelude.{◌+◌, ◌-◌, ◌*◌, ◌≤◌, ◌<◌, ◌≡◌, refl, arith, List, [], ◌∷◌, ◌++◌}
use osl_agent_sentinel.Score.{one, clamp, round_half_even}
use osl_agent_sentinel.Score.Rounding.{round_half_even-le, round_half_even_mono}
use osl_agent_sentinel.Models.Decision.{RiskFactor}
use osl_agent_sentinel.Pipeline.Risk.{Fraction, p_safe, complement, aggregate_risk}

-- A fraction in [0, 1].
pub record IsProper (p : Fraction) : Type 0 where
  pub pos : 0 < p.den
  pub le : p.num ≤ p.den

-- The order of fractions.
abbrev pub Below : Fraction → Fraction → Type 0
Below p q = p.num * q.den ≤ q.num * p.den

abbrev pub unit : Fraction
unit = record { num = 1; den = 1 }

abbrev pub scaled : Fraction → RiskFactor → Fraction
scaled p f = record { num = p.num * (one - clamp f.severity); den = p.den * one }

pub scaled-IsProper : (p : Fraction) (f : RiskFactor) → IsProper p → IsProper (scaled p f)
scaled-IsProper p f h = record { pos = omega (arith, h.pos); le = mul-le-mul h.le (omega arith) }

pub p_safe-IsProper : (p : Fraction) (fs : List RiskFactor) → IsProper p → IsProper (p_safe p fs)
unfolding p_safe
p_safe-IsProper p [] h = h
p_safe-IsProper p (f ∷ fs) h = p_safe-IsProper (scaled p f) fs (scaled-IsProper p f h)

pub Below-trans : (p q r : Fraction) → 0 < q.den → Below p q → Below q r → Below p r
Below-trans p q r h pq qr =
    let first : p.num * q.den * r.den ≤ q.num * p.den * r.den = mul-le-mul_right r.den pq in
    let second : q.num * r.den * p.den ≤ r.num * q.den * p.den = mul-le-mul_right p.den qr in
    le_of_mul-le-mul_right {k = q.den} (omega arith) h

scaled-Below : (p : Fraction) (f : RiskFactor) → Below (scaled p f) p
scaled-Below p f =
    let h : (one - clamp f.severity) * (p.num * p.den) ≤ one * (p.num * p.den) =
      mul-le-mul_right (p.num * p.den) (omega arith) in
    omega arith

-- Each factor lowers the product.
pub p_safe-Below : (p : Fraction) (fs : List RiskFactor) → IsProper p → Below (p_safe p fs) p
unfolding p_safe
p_safe-Below p [] h = omega arith
p_safe-Below p (f ∷ fs) h =
    let w = scaled-IsProper p f h in
    Below-trans (p_safe (scaled p f) fs) (scaled p f) p w.pos (p_safe-Below (scaled p f) fs w)
      (scaled-Below p f)

complement_mono :
    (p q : Fraction) → IsProper p → IsProper q → Below q p → complement p ≤ complement q
complement_mono p q hp hq le =
    let first : (p.den - p.num + p.num) * q.den ≤ p.den * q.den =
      mul-le-mul_right q.den (omega (arith, hp.le)) in
    let second : q.den * p.den ≤ (q.den - q.num + q.num) * p.den =
      mul-le-mul_right p.den (omega (arith, hq.le)) in
    let rounded =
      round_half_even_mono ((p.den - p.num) * 10000) p.den ((q.den - q.num) * 10000) q.den hp.pos
        hq.pos (omega arith) in
    omega arith

complement-le-one : (p : Fraction) → IsProper p → complement p ≤ one
complement-le-one p h =
    let rounded = round_half_even-le ((p.den - p.num) * 10000) p.den 10000 h.pos (omega arith) in
    omega arith

pub aggregate_risk-eq : (fs : List RiskFactor) → aggregate_risk fs ≡ complement (p_safe unit fs)
unfolding aggregate_risk round_half_even
aggregate_risk-eq [] = refl
aggregate_risk-eq (f ∷ fs) = refl

pub unit-IsProper : IsProper unit
unit-IsProper = record { pos = omega arith; le = omega arith }

-- The aggregate is a score: it never exceeds 1.
pub aggregate_risk-le-one : (fs : List RiskFactor) → aggregate_risk fs ≤ one
aggregate_risk-le-one fs =
    rw aggregate_risk-eq
      (complement-le-one (p_safe unit fs) (p_safe-IsProper unit fs unit-IsProper))

pub p_safe-append :
    (p : Fraction) (fs gs : List RiskFactor) → p_safe p (fs ++ gs) ≡ p_safe (p_safe p fs) gs
unfolding p_safe
p_safe-append p [] gs = refl
p_safe-append p (f ∷ fs) gs = p_safe-append (scaled p f) fs gs

-- More risk factors never lower the aggregate.
pub aggregate_risk-append :
    (fs gs : List RiskFactor) → aggregate_risk fs ≤ aggregate_risk (fs ++ gs)
aggregate_risk-append fs gs =
    let p = p_safe unit fs in
    let h = p_safe-IsProper unit fs unit-IsProper in
    rw (aggregate_risk-eq fs, aggregate_risk-eq (fs ++ gs), p_safe-append unit fs gs)
      (complement_mono p (p_safe p gs) h (p_safe-IsProper p gs h) (p_safe-Below p gs h))
