-- ===== src/Injection/Detects.antt =====
-- What the injection detector reports, and what a failing model changes.

use mathlib.Core.List.{Memᴰ}
use osl_agent_sentinel.Prelude.{
  ℕ, ◌≤◌, ◌≡◌, refl, sym, ap, ◌∙◌, Outcome-cases, inl, inr, arith, String, false, Option, none,
  some, List, [], ◌∷◌, length, length-append, ltb, ◌==◌, ℕ_eq, ok, err, Error,
}
use osl_agent_sentinel.Prelude.Text.{take_chars}
use osl_agent_sentinel.Score.{Score, one, dec4, round3, round3-le-one, le-round3}
use osl_agent_sentinel.Models.Action.{Action, ActionType}
use osl_agent_sentinel.Models.Decision.{RiskFactor}
use osl_agent_sentinel.Models.Texts.{iter_text}
use osl_agent_sentinel.Injection.{
  InjectionModel, InjectionDetectorConfig, InjectionDetector, InjectionNumerals, injection_patterns,
  max_score, model_score, injection_severity, new_injection_factor, unless_no_text,
  injection_result, hit_of, text_hits, pattern_hits, scan_candidates, scan_injection,
}

severity-bounds :
    (config : InjectionDetectorConfig) (hits : ℕ) (score : Score)
    → 1 ≤ hits
    → score ≤ one
    → (dec4 6_500 ≤ injection_severity config hits score)
      × (injection_severity config hits score ≤ one)
severity-bounds config hits score some_hits bounded = ground arith

result-ok :
    (nums : InjectionNumerals) (type : ActionType) (hits : ℕ) (score severity : Score)
    → 1 ≤ severity
    → round3 severity ≤ one
    → injection_result nums type hits score severity
      ≡ ok (new_injection_factor nums type hits score severity ∷ [])
result-ok nums type hits score severity low high =
    let there : (severity == 0) ≡ false = ground arith in
    let bounded : ltb one (round3 severity) ≡ false = ground arith in rw (there, bounded) refl

-- One factor, with the rounded severity.
result-factor :
    (nums : InjectionNumerals) (type : ActionType) (hits : ℕ) (score severity : Score)
    → dec4 6_500 ≤ severity
    → severity ≤ one
    → (f : RiskFactor) × (injection_result nums type hits score severity ≡ ok (f ∷ []))
      × (f.severity ≡ round3 severity)
result-factor nums type hits score severity low high =
    let f = new_injection_factor nums type hits score severity in
    (
      f,
      result-ok nums type hits score severity (omega (arith, low)) (round3-le-one severity high),
      refl,
    )

max_score-err :
    (model : InjectionModel) (limit : ℕ) (texts : List String) (text : String) (e : Error)
    → Memᴰ text texts
    → model (take_chars limit text) ≡ err e
    → (e' : Error) × (max_score model limit texts ≡ err e')
unfolding max_score
max_score-err model limit [] text e m failed = elim m [ ]
max_score-err model limit (t ∷ texts) text e (Memᴰ.head same) failed =
    (e, rw (sym same, failed) refl)
max_score-err model limit (t ∷ texts) text e (Memᴰ.tail m) failed =
    let (e', later) = max_score-err model limit texts text e m failed in
    elim (Outcome-cases (model (take_chars limit t))) [
      | inl (s, scored) ↦ (e', rw (scored, later) refl)
      | inr (now, broken) ↦ (now, rw broken refl)
    ]

module _ (search : String → String → Option String) (nums : InjectionNumerals) where
  length-hit_of :
      (pattern : String) (o : Option String) (rest : List (String × String))
      → length rest ≤ length (hit_of search nums pattern o rest)
  length-hit_of pattern none rest = omega arith
  length-hit_of pattern (some found) rest = omega arith

  text_hits-hit :
      (text : String) (patterns : List String) (pattern found : String)
      → Memᴰ pattern patterns
      → search pattern text ≡ some found
      → 1 ≤ length (text_hits search nums text patterns)
  unfolding text_hits
  text_hits-hit text [] pattern found m hit = elim m [ ]
  text_hits-hit text (p ∷ ps) pattern found (Memᴰ.head same) hit = rw (sym same, hit) (omega arith)
  text_hits-hit text (p ∷ ps) pattern found (Memᴰ.tail m) hit = omega (
    arith,
    text_hits-hit text ps pattern found m hit,
    length-hit_of p (search p text) (text_hits search nums text ps),
  )

  pattern_hits-hit :
      (limit : ℕ) (texts : List String) (text pattern found : String)
      → Memᴰ text texts
      → Memᴰ pattern injection_patterns
      → search pattern (take_chars limit text) ≡ some found
      → 1 ≤ length (pattern_hits search nums limit texts)
  unfolding pattern_hits
  pattern_hits-hit limit [] text pattern found m d hit = elim m [ ]
  pattern_hits-hit limit (t ∷ texts) text pattern found (Memᴰ.head same) d hit = omega (
    arith,
    text_hits-hit (take_chars limit t) injection_patterns pattern found d
        (ap (λ x. search pattern (take_chars limit x)) (sym same) ∙ hit),
    length-append (text_hits search nums (take_chars limit t) injection_patterns)
        (pattern_hits search nums limit texts),
  )
  pattern_hits-hit limit (t ∷ texts) text pattern found (Memᴰ.tail m) d hit = omega (
    arith,
    pattern_hits-hit limit texts text pattern found m d hit,
    length-append (text_hits search nums (take_chars limit t) injection_patterns)
        (pattern_hits search nums limit texts),
  )

  scanned :
      (d : InjectionDetector) (action : Action) (texts : List String) (text : String)
      → Memᴰ text texts
      → unless_no_text search nums d action texts ≡ scan_candidates search nums d action texts
  scanned d action [] text m = elim m [ ]
  scanned d action (t ∷ texts) text m = refl

  -- Where a pattern is found in the part of a text that is looked at, and the score of the model is at
  -- most 1.0, the scan returns one factor, and its severity is between 0.65 and 1.0.
  pub scan_injection-Detects :
      (d : InjectionDetector) (action : Action) (text pattern found : String)
      → Memᴰ text (iter_text action)
      → Memᴰ pattern injection_patterns
      → search pattern (take_chars d.config.max_chars_per_field text) ≡ some found
      → model_score d (iter_text action) ≤ one
      → (f : RiskFactor) × (scan_injection search nums d action ≡ ok (f ∷ []))
        × (dec4 6_500 ≤ f.severity)
        × (f.severity ≤ one)
  unfolding scan_injection
  scan_injection-Detects d action text pattern found m p hit bounded =
      let limit = d.config.max_chars_per_field in
      let texts = iter_text action in
      let hits = length (pattern_hits search nums limit texts) in
      let score = model_score d texts in
      let severity = injection_severity d.config hits score in
      let (low, high) =
        severity-bounds d.config hits score
          (pattern_hits-hit limit texts text pattern found m p hit) bounded in
      let (f, e, rounded) = result-factor nums action.type hits score severity low high in
      (
        f,
        scanned d action texts text m ∙ e,
        rw rounded (le-round3 severity 650 low),
        rw rounded (round3-le-one severity high),
      )

  -- A model that raises on one of the texts counts for nothing: the scan is that of a detector without
  -- a model.
  pub scan_injection-model_err :
      (d : InjectionDetector) (model : InjectionModel) (action : Action) (text : String) (e : Error)
      → d.model ≡ some model
      → Memᴰ text (iter_text action)
      → model (take_chars d.config.max_chars_per_field text) ≡ err e
      → scan_injection search nums d action
        ≡ scan_injection search nums (record d { model = none }) action
  unfolding scan_injection model_score
  scan_injection-model_err d model action text e there m failed =
      let (e', broken) =
        max_score-err model d.config.max_chars_per_field (iter_text action) text e m failed in
      let no_score : model_score d (iter_text action) ≡ 0 = rw (there, broken) refl in
      scanned d action (iter_text action) text m
      ∙ ap
          (λ score.
            injection_result nums action.type
              (length (pattern_hits search nums d.config.max_chars_per_field (iter_text action)))
              score
              (injection_severity d.config
                (length (pattern_hits search nums d.config.max_chars_per_field (iter_text action)))
                score))
          no_score
      ∙ sym (scanned (record d { model = none }) action (iter_text action) text m)
