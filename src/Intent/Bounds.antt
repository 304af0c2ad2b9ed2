-- ===== src/Intent/Bounds.antt =====
-- The severities that the intent classifier reports.
use native.Mathlib.Nat.{mul-pos}
use osl_agent_sentinel.Prelude.{
  ℕ, ◌-◌, ◌*◌, ◌≤◌, ◌<◌, ◌≡◌, refl, ◌⊎◌, inl, inr, ap, sym, subst, not, arith, String, Bool, true,
  false, Option, none, some, List, [], ◌∷◌, if◌then◌else◌, Outcome, ok, err, ok-injective, ◌>>=◌,
  >>=-returns, ◌==◌, string_eq, Bool-cases, eq_iff, ◌≢◌,
}
use osl_agent_sentinel.Score.{Score, one, dec4}
use osl_agent_sentinel.Score.Rounding.{round_half_even-le, le-round_half_even}
use osl_agent_sentinel.Models.Action.{Action}
use osl_agent_sentinel.Models.Decision.{RiskFactor}
use osl_agent_sentinel.Intent.{
  Overlap, IntentTexts, EmbeddingProvider, IntentClassifier, default_intent_config, missing_factor,
  lexical, average, at_least, drift_severity, or_no_text, hints_for, tokens_of, drift_factor,
  has_tool, semantic, judge_drift, classify_declared, classify_intent, no_hints, is_benign,
  intent_hints,
}

drift_severity-bounds :
    (n d : ℕ)
    → 0 < d
    → at_least (n, d) (dec4 4_500) ≡ false
    → (dec4 5_500 ≤ drift_severity (n, d)) × (drift_severity (n, d) ≤ one)
unfolding drift_severity
drift_severity-bounds n d pos low =
    let under : n * one < dec4 4_500 * d = ground arith in
    let below = le-round_half_even (1_000 * (d - n)) d 550 pos (omega (arith, under)) in
    let above = round_half_even-le (1_000 * (d - n)) d 1_000 pos (omega arith) in
    (omega (arith, below), omega (arith, above))

lexical-pos : (tokens hints : List String) → 0 < (lexical tokens hints).1
lexical-pos tokens [] = omega arith
lexical-pos tokens (h ∷ hs) = omega arith

average-pos : (l s : Overlap) → 0 < l.1 → 0 < s.1 → 0 < (average l s).1
average-pos (a, b) (c, d) hb hd = omega (arith, mul-pos hb hd)

provided-pos :
    (b : Bool) (o : Outcome Score) (lex sem : Overlap)
    → 0 < lex.1
    → (if b then (o >>= λ s. let scored : Overlap = (s, one) in ok scored) else ok lex) ≡ ok sem
    → 0 < sem.1
provided-pos true (ok s) lex sem pos returned =
    subst (λ (x : Overlap). 0 < x.1) (ok-injective returned) (omega arith)
provided-pos true (err e) lex sem pos returned = absurd cc
provided-pos false o lex sem pos returned =
    subst (λ (x : Overlap). 0 < x.1) (ok-injective returned) pos

module _ (texts : IntentTexts) where
  semantic-pos :
      (o : Option EmbeddingProvider) (action : Action) (intent : String) (lex sem : Overlap)
      → 0 < lex.1
      → semantic texts o action intent lex ≡ ok sem
      → 0 < sem.1
  semantic-pos none action intent lex sem pos returned =
      subst (λ o. 0 < o.1) (ok-injective returned) pos
  semantic-pos (some similarity) action intent lex sem pos returned =
      provided-pos (has_tool texts action.tool) (similarity intent (or_no_text action.tool)) lex sem
        pos returned

  -- No text is declared, and that is reported with severity 0.25.
  abbrev pub IsMissing : Action → List RiskFactor → Type 0
  IsMissing action fs =
      (texts.strip (or_no_text action.intent) ≡ "")
      × ((f : RiskFactor) × (fs ≡ f ∷ []) × (f.code ≡ "intent.missing") × (f.severity ≡ dec4 2_500))

  -- The mean of the overlaps reaches 0.45, or the drift is let pass, and nothing is reported; or it is
  -- reported alone, with a severity between 0.55 and 1.0.
  abbrev pub IsJudged : Bool → Bool → List RiskFactor → Type 0
  IsJudged near benign fs =
      (((near ≡ true) ⊎ (benign ≡ true)) × (fs ≡ []))
      ⊎ ((near ≡ false)
          × (benign ≡ false)
          × ((f : RiskFactor) × (fs ≡ f ∷ []) × (dec4 5_500 ≤ f.severity) × (f.severity ≤ one)))

  abbrev pub is_let_pass : IntentClassifier → Action → Bool
  is_let_pass c action =
      is_benign c (not (no_hints (intent_hints action.type)))
        (tokens_of texts (texts.strip (or_no_text action.intent))) (hints_for texts action)

  abbrev pub word_overlap : Action → Overlap
  word_overlap action =
      lexical (tokens_of texts (texts.strip (or_no_text action.intent))) (hints_for texts action)

  abbrev pub IsGraded : IntentClassifier → Action → List RiskFactor → Type 0
  IsGraded c action fs =
      IsMissing action fs
      ⊎ ((texts.strip (or_no_text action.intent) ≢ "")
          × ((sem : Overlap) × (semantic texts c.embeddings action
                  (texts.strip (or_no_text action.intent)) (word_overlap action)
                ≡ ok sem)
              × IsJudged (at_least (average (word_overlap action) sem) (dec4 4_500))
                  (is_let_pass c action) fs))

  IsJudged-if :
      (near benign : Bool) (f : RiskFactor)
      → (near ≡ false → (dec4 5_500 ≤ f.severity) × (f.severity ≤ one))
      → IsJudged near benign (if near then [] else if benign then [] else f ∷ [])
  IsJudged-if true benign f h = inl (inl refl, refl)
  IsJudged-if false true f h = inl (inr refl, refl)
  IsJudged-if false false f h = inr (refl, refl, (f, refl, (h refl).0, (h refl).1))

  judge_drift-IsJudged :
      (c : IntentClassifier) (action : Action) (sem : Overlap)
      → c.config ≡ default_intent_config
      → 0 < sem.1
      → IsJudged
          (at_least (average (word_overlap action) sem) (dec4 4_500))
          (is_let_pass c action)
          (judge_drift texts c action
            (texts.strip (or_no_text action.intent))
            (word_overlap action)
            sem)
  unfolding judge_drift
  judge_drift-IsJudged c action sem default pos =
      let intent = texts.strip (or_no_text action.intent) in
      let combined = average (word_overlap action) sem in
      let lex_pos = lexical-pos (tokens_of texts intent) (hints_for texts action) in
      rw (ap (λ config. config.min_similarity_for_match) default) (
        IsJudged-if (at_least combined (dec4 4_500)) (is_let_pass c action)
          (drift_factor texts c.config action intent (word_overlap action) sem combined)
          (λ low.
            drift_severity-bounds combined.0 combined.1
              (average-pos (word_overlap action) sem lex_pos pos) low))

  -- With the default thresholds, a missing intent is reported with severity 0.25, and a declared one
  -- exactly where the mean of the two overlaps is under 0.45 and the drift is not let pass as benign,
  -- with a severity between 0.55 and 1.0, whatever the embedding provider answers.
  pub classify_intent-IsGraded :
      (c : IntentClassifier) (action : Action) (fs : List RiskFactor)
      → c.config ≡ default_intent_config
      → classify_intent texts c action ≡ ok fs
      → IsGraded c action fs
  unfolding classify_intent
  classify_intent-IsGraded c action fs default returned =
      let intent = texts.strip (or_no_text action.intent) in
      elim (Bool-cases (intent == "")) [
        | inl undeclared ↦
            let e : ok (missing_factor ∷ []) ≡ ok fs = ground arith in
            inl
              ((eq_iff intent "").0 undeclared, (missing_factor, sym (ok-injective e), refl, refl))
        | inr declared ↦
            let run : classify_declared texts c action intent ≡ ok fs = ground arith in
            let (sem, answered, e) =
              >>=-returns (semantic texts c.embeddings action intent (word_overlap action))
                (λ sem. ok (judge_drift texts c action intent (word_overlap action) sem)) run in
            let lex_pos = lexical-pos (tokens_of texts intent) (hints_for texts action) in
            let pos =
              semantic-pos c.embeddings action intent (word_overlap action) sem lex_pos answered in
            inr (
              ground (arith, eq_iff intent ""),
              (
                sem,
                answered,
                subst
                    (IsJudged (at_least (average (word_overlap action) sem) (dec4 4_500))
                      (is_let_pass c action))
                    (ok-injective e) (judge_drift-IsJudged c action sem default pos),
              ),
            )
      ]
