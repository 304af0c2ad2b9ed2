-- ===== src/Score.antt =====
-- Python's floats in [0, 1], as whole multiples of 10 ^ -16: `dec4 n` is the literal n / 10000.
-- Differences are exact and stop at 0, which is where the source clamps its own.
pub mod Rounding
use osl_agent_sentinel.Prelude.{
  ℕ, ◌+◌, ◌*◌, ◌/◌, ◌%◌, ◌^◌, ◌≤◌, min, ◌≡◌, arith, if◌then◌else◌, ltb, ◌==◌, ℕ_eq,
}

abbrev pub Score : Type 0
Score = ℕ

-- 10 ^ -4, the last place that the source rounds to.
abbrev pub place : ℕ
place = 10 ^ 12

abbrev pub one : Score
one = 10 ^ 16

abbrev pub dec4 : ℕ → Score
dec4 n = n * place

-- `max(0.0, min(1.0, x))`
abbrev pub clamp : Score → Score
clamp x = min one x

-- Python's `round`, on the fraction n / d: to the nearest integer, a tie to the even one.
unfoldable pub round_half_even : ℕ → ℕ → ℕ
round_half_even n d =
    let q = n / d in
    let r = n % d in
    if ltb (2 * r) d then q else if ltb d (2 * r) then q + 1 else if q % 2 == 0 then q else q + 1

-- `round(x, 4)`
unfoldable pub round4 : Score → Score
unfolding round_half_even
round4 x = dec4 (round_half_even x place)

pub round4-le-one : (x : Score) → x ≤ one → round4 x ≤ one
unfolding round4
round4-le-one x h = ground arith

-- Rounding keeps the order.
pub round4_mono : (x y : Score) → x ≤ y → round4 x ≤ round4 y
unfolding round4
round4_mono x y h = ground arith

-- What has four places is kept.
pub round4-dec4 : (n : ℕ) → round4 (dec4 n) ≡ dec4 n
unfolding round4
round4-dec4 n = ground arith

pub round4-le-dec4 : (x : Score) (n : ℕ) → x ≤ dec4 n → round4 x ≤ dec4 n
unfolding round4
round4-le-dec4 x n h = ground arith

pub le-round4-dec4 : (x : Score) (n : ℕ) → dec4 n ≤ x → dec4 n ≤ round4 x
unfolding round4
le-round4-dec4 x n h = ground arith

-- `round(x, 3)`
unfoldable pub round3 : Score → Score
unfolding round_half_even
round3 x = round_half_even x (10 * place) * (10 * place)

pub round3-le-one : (x : Score) → x ≤ one → round3 x ≤ one
unfolding round3
round3-le-one x h = ground arith

-- A bound of three places is kept.
pub le-round3 : (x : Score) (n : ℕ) → dec4 (10 * n) ≤ x → dec4 (10 * n) ≤ round3 x
unfolding round3
le-round3 x n h = ground arith
