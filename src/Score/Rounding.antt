-- ===== src/Score/Rounding.antt =====
-- `round` on a fraction keeps bounds and the order.
use native.Mathlib.Nat.{div-add-mod', mod-lt, mul-le-mul_right, mul-pos, eq_of_mul-eq-mul_right}
use native.Mathlib.Decide.{dec_lt}
use osl_agent_sentinel.Prelude.{ℕ, ◌+◌, ◌*◌, ◌/◌, ◌%◌, ◌≤◌, ◌<◌, ◌≡◌, arith}
use osl_agent_sentinel.Score.{round_half_even}

-- The nearest integer, in products: at most half away, and even when exactly half away.
record IsNearest (n d q : ℕ) : Type 0 where
  above : 2 * (q * d) ≤ 2 * n + d
  below : 2 * n ≤ 2 * (q * d) + d
  even_above : 2 * (q * d) ≡ 2 * n + d → q % 2 ≡ 0
  even_below : 2 * n ≡ 2 * (q * d) + d → q % 2 ≡ 0

suc-mul_lem : (q d : ℕ) → (q + 1) * d ≡ q * d + d
suc-mul_lem q d = omega arith

round_half_even-IsNearest : (n d : ℕ) → 0 < d → IsNearest n d (round_half_even n d)
unfolding round_half_even
round_half_even-IsNearest n d h =
    ground (arith, div-add-mod' n d, mod-lt n h, suc-mul_lem (n / d) d)

-- A bound on the fraction is a bound on the rounded one.
pub round_half_even-le : (n d k : ℕ) → 0 < d → n ≤ k * d → round_half_even n d ≤ k
round_half_even-le n d k h le = elim (dec_lt k (round_half_even n d)) [
  | yes over ↦
      let w = round_half_even-IsNearest n d h in
      absurd (omega (arith, mul-le-mul_right d over, suc-mul_lem k d))
  | no within ↦ omega arith
]

pub le-round_half_even : (n d k : ℕ) → 0 < d → k * d ≤ n → k ≤ round_half_even n d
le-round_half_even n d k h le = elim (dec_lt (round_half_even n d) k) [
  | yes under ↦
      let w = round_half_even-IsNearest n d h in
      absurd (omega (arith, mul-le-mul_right d under, suc-mul_lem (round_half_even n d) d))
  | no within ↦ omega arith
]

-- Two nearest integers that are out of order would both lie half away from one fraction, one above
-- it and one below, and both would be even.
IsNearest-lt :
    (n d m e p q : ℕ)
    → 0 < d
    → 0 < e
    → n * e ≤ m * d
    → IsNearest n d p
    → IsNearest m e q
    → q < p
    → ⊥
IsNearest-lt n d m e p q hd he le wp wq over =
    let above : 2 * (p * d) * e ≤ (2 * n + d) * e = mul-le-mul_right e wp.above in
    let below : 2 * m * d ≤ (2 * (q * e) + e) * d = mul-le-mul_right d wq.below in
    let apart : (q + 1) * (d * e) ≤ p * (d * e) = mul-le-mul_right (d * e) (omega arith) in
    let p_even =
      wp.even_above (eq_of_mul-eq-mul_right e he (2 * (p * d)) (2 * n + d) (omega arith)) in
    let q_even =
      wq.even_below (eq_of_mul-eq-mul_right d hd (2 * m) (2 * (q * e) + e) (omega arith)) in
    let next : p ≡ q + 1 = eq_of_mul-eq-mul_right (d * e) (mul-pos hd he) p (q + 1) (omega arith) in
    omega arith

-- The smaller fraction is not rounded above the greater.
pub round_half_even_mono :
    (n d m e : ℕ) → 0 < d → 0 < e → n * e ≤ m * d → round_half_even n d ≤ round_half_even m e
round_half_even_mono n d m e hd he le = elim (dec_lt (round_half_even m e) (round_half_even n d)) [
  | yes over ↦ absurd (
      IsNearest-lt n d m e (round_half_even n d) (round_half_even m e) hd he le
        (round_half_even-IsNearest n d hd) (round_half_even-IsNearest m e he) over)
  | no within ↦ omega arith
]
