-- ===== src/Identity/TrustScorer/Tiers.antt =====
-- The tier that goes with a score.
use osl_agent_sentinel.Prelude.{leb, ℕ, ◌+◌, ◌-◌, ◌≤◌, ◌<◌, ◌≡◌, arith, List, [], ◌∷◌, min, ◌/◌}
use osl_agent_sentinel.Score.{Score, dec4, clamp, place, round4, round4-dec4}
use osl_agent_sentinel.Models.Decision.{DecisionVerdict, RiskFactor}
use osl_agent_sentinel.Models.Identity.{
  Identity, TrustTier, observe, constrained, standard, elevated, privileged,
}
use osl_agent_sentinel.Identity.TrustScorer.{default_scorer, moved, adjust_identity, resolve_tier}

abbrev pub rank : TrustTier → ℕ
rank observe = 0
rank constrained = 1
rank standard = 2
rank elevated = 3
rank privileged = 4

-- The lowest score of a tier, in units of 1 / 10000.
abbrev pub floor_of : TrustTier → ℕ
floor_of observe = 0
floor_of constrained = 2500
floor_of standard = 5000
floor_of elevated = 7000
floor_of privileged = 9000

-- A score has at least the rank of a tier exactly when it reaches the floor of that tier.
pub rank-resolve_tier :
    (t : TrustTier) (score : Score)
    → leb (rank t) (rank (resolve_tier score)) ≡ leb (dec4 (floor_of t)) score
unfolding resolve_tier
rank-resolve_tier observe score = ground arith
rank-resolve_tier constrained score = ground arith
rank-resolve_tier standard score = ground arith
rank-resolve_tier elevated score = ground arith
rank-resolve_tier privileged score = ground arith

-- A number of four places stays one under a verdict.
moved_places :
    (fs : List RiskFactor) (v : DecisionVerdict) (n : ℕ)
    → (m : ℕ) × (clamp (moved default_scorer fs v (dec4 n)) ≡ dec4 m)
moved_places fs DecisionVerdict.deny n = (min 10000 (n - 2000), omega arith)
moved_places fs DecisionVerdict.escalate n = (min 10000 (n - 800), omega arith)
moved_places fs DecisionVerdict.throttle n = (min 10000 (n - 300), omega arith)
moved_places [] DecisionVerdict.allow n = (min 10000 (n + 50), omega arith)
moved_places (f ∷ fs) DecisionVerdict.allow n = (min 10000 n, omega arith)

-- From a score of four places the new record is consistent: its tier is that of its score.
pub adjust_identity-tier :
    (i : Identity) (fs : List RiskFactor) (v : DecisionVerdict) (n : ℕ)
    → i.trust_score ≡ dec4 n
    → let i' = adjust_identity default_scorer i fs v in i'.tier ≡ resolve_tier i'.trust_score
unfolding adjust_identity
adjust_identity-tier i fs v n h = let (m, e) = moved_places fs v n in rw (h, e) (rw (round4-dec4 m))

-- From other scores it need not be: just below 0.7 a DENY stores a score of 0.5, which is STANDARD,
-- with the tier CONSTRAINED.
pub tier_below_score :
    (i : Identity) (fs : List RiskFactor)
    → dec4 7000 ≤ i.trust_score + place / 2 - 1
    → i.trust_score < dec4 7000
    → let i' = adjust_identity default_scorer i fs DecisionVerdict.deny in
      (i'.trust_score ≡ dec4 5000)
      × (i'.tier ≡ constrained)
      × (resolve_tier i'.trust_score ≡ standard)
unfolding adjust_identity round4
tier_below_score i fs lo hi = ground arith
