-- ===== src/Identity/TrustScorer.antt =====
-- sentinel/identity/trust_scorer.py
pub mod Bounds
pub mod Tiers
use osl_agent_sentinel.Prelude.{
  ℕ, ◌+◌, ◌-◌, ◌≤◌, Bool, true, false, Option, none, some, List, [], ◌∷◌, leb, if◌then◌else◌,
}
use osl_agent_sentinel.Score.{Score, one, dec4, clamp, round4}
use osl_agent_sentinel.Models.Decision.{DecisionVerdict, RiskFactor}
use osl_agent_sentinel.Models.Identity.{
  Identity, TrustTier, observe, constrained, standard, elevated, privileged,
}

-- `_TIER_BANDS`
abbrev pub tier_bands : List (Score × TrustTier)
tier_bands =
    (dec4 9000, privileged)
    ∷ (dec4 7000, elevated)
    ∷ (dec4 5000, standard)
    ∷ (dec4 2500, constrained)
    ∷ (0, observe)
    ∷ []

abbrev pub first_band : List (Score × TrustTier) → Score → TrustTier
first_band [] score = observe
first_band ((threshold, tier) ∷ bands) score =
    if leb threshold score then tier else first_band bands score

unfoldable pub resolve_tier : Score → TrustTier
resolve_tier score = first_band tier_bands score

pub record TrustScorer : Type 0 where
  pub deny_penalty : Score
  pub escalate_penalty : Score
  pub throttle_penalty : Score
  pub clean_recovery : Score

abbrev pub default_scorer : TrustScorer
default_scorer = record {
  deny_penalty = dec4 2000;
  escalate_penalty = dec4 800;
  throttle_penalty = dec4 300;
  clean_recovery = dec4 50;
}

abbrev pub recovery : TrustScorer → List RiskFactor → Score
recovery s [] = s.clean_recovery
recovery s (_ ∷ _) = 0

-- The score before it is clamped; a difference stops at 0, where the clamp would put it.
abbrev pub moved : TrustScorer → List RiskFactor → DecisionVerdict → Score → Score
moved s factors DecisionVerdict.deny score = score - s.deny_penalty
moved s factors DecisionVerdict.escalate score = score - s.escalate_penalty
moved s factors DecisionVerdict.throttle score = score - s.throttle_penalty
moved s factors DecisionVerdict.allow score = score + recovery s factors

unfoldable pub adjust_identity :
    TrustScorer → Identity → List RiskFactor → DecisionVerdict → Identity
unfolding resolve_tier
adjust_identity s identity factors verdict =
    let score = clamp (moved s factors verdict identity.trust_score) in
    record identity { trust_score = round4 score; tier = resolve_tier score }

unfoldable pub adjust :
    TrustScorer → Option Identity → List RiskFactor → DecisionVerdict → Option Identity
unfolding adjust_identity
adjust s none factors verdict = none
adjust s (some identity) factors verdict = some (adjust_identity s identity factors verdict)

-- `observe`, which writes the new score and tier into the identity: the identity after the call,
-- and the score that it returns. `risk_factors or []` is `none` or the list.
unfoldable pub observe_verdict :
    TrustScorer → Identity → DecisionVerdict → Option (List RiskFactor) → Identity × Score
unfolding adjust_identity
observe_verdict s identity verdict risk_factors =
    let factors : List RiskFactor = elim risk_factors [ none ↦ [] | some fs ↦ fs ] in
    let updated = adjust_identity s identity factors verdict in
    (
      record identity { trust_score = updated.trust_score; tier = updated.tier },
      updated.trust_score,
    )

-- A run of verdicts on one identity.
unfoldable pub observe_all : TrustScorer → Identity → List DecisionVerdict → Identity
observe_all s identity [] = identity
observe_all s identity (v ∷ vs) = observe_all s (observe_verdict s identity v none).0 vs
