-- ===== src/Identity/TrustScorer/Bounds.antt =====
-- How far one verdict, or a run of them, can move the trust score.
use osl_agent_sentinel.Prelude.{ℕ, ◌+◌, ◌≤◌, ◌≡◌, arith, none, List, [], ◌∷◌}
use osl_agent_sentinel.Score.{Score, one, dec4, clamp, round4-le-one, round4_mono, round4-le-dec4}
use osl_agent_sentinel.Models.Decision.{DecisionVerdict, RiskFactor}
use osl_agent_sentinel.Models.Identity.{Identity, observe}
use osl_agent_sentinel.Identity.TrustScorer.{
  TrustScorer, default_scorer, moved, adjust_identity, observe_verdict, observe_all,
}

clamp-le-one : (x : Score) → clamp x ≤ one
clamp-le-one x = omega arith

-- Whatever the settings and the verdict, the new score is in [0, 1].
pub adjust_identity-le-one :
    (s : TrustScorer) (i : Identity) (fs : List RiskFactor) (v : DecisionVerdict)
    → (adjust_identity s i fs v).trust_score ≤ one
unfolding adjust_identity
adjust_identity-le-one s i fs v = round4-le-one _ (clamp-le-one (moved s fs v i.trust_score))

-- The stricter of two verdicts leaves the lower score, if the penalties are ordered that way.
pub adjust_identity_mono :
    (s : TrustScorer) (i : Identity) (fs : List RiskFactor)
    → s.escalate_penalty ≤ s.deny_penalty
    → s.throttle_penalty ≤ s.escalate_penalty
    → ((adjust_identity s i fs DecisionVerdict.deny).trust_score
        ≤ (adjust_identity s i fs DecisionVerdict.escalate).trust_score)
      × ((adjust_identity s i fs DecisionVerdict.escalate).trust_score
          ≤ (adjust_identity s i fs DecisionVerdict.throttle).trust_score)
      × ((adjust_identity s i fs DecisionVerdict.throttle).trust_score
          ≤ (adjust_identity s i fs DecisionVerdict.allow).trust_score)
unfolding adjust_identity
adjust_identity_mono s i fs h k =
    (round4_mono _ _ (omega arith), round4_mono _ _ (omega arith), round4_mono _ _ (omega arith))

one_deny :
    (i : Identity) (n : ℕ)
    → i.trust_score ≤ dec4 (n + 2000)
    → (adjust_identity default_scorer i [] DecisionVerdict.deny).trust_score ≤ dec4 n
unfolding adjust_identity
one_deny i n h = round4-le-dec4 _ n (omega arith)

low_tier :
    (i : Identity)
    → i.trust_score ≤ dec4 4000
    → (adjust_identity default_scorer i [] DecisionVerdict.deny).tier ≡ observe
unfolding adjust_identity
low_tier i h = ground arith

-- Four DENY verdicts in a row bring every identity down to OBSERVE, with a score of at most 0.2.
pub four_denies :
    (i : Identity)
    → i.trust_score ≤ one
    → let i' = observe_all default_scorer i (
        DecisionVerdict.deny ∷ DecisionVerdict.deny ∷ DecisionVerdict.deny ∷ DecisionVerdict.deny
        ∷ []) in
      (i'.tier ≡ observe) × (i'.trust_score ≤ dec4 2000)
unfolding observe_all observe_verdict
four_denies i h =
    let i₁ = (observe_verdict default_scorer i DecisionVerdict.deny none).0 in
    let i₂ = (observe_verdict default_scorer i₁ DecisionVerdict.deny none).0 in
    let i₃ = (observe_verdict default_scorer i₂ DecisionVerdict.deny none).0 in
    let h₁ : i₁.trust_score ≤ dec4 8000 = one_deny i 8000 h in
    let h₂ : i₂.trust_score ≤ dec4 6000 = one_deny i₁ 6000 h₁ in
    let h₃ : i₃.trust_score ≤ dec4 4000 = one_deny i₂ 4000 h₂ in
    (low_tier i₃ h₃, one_deny i₃ 2000 h₃)
