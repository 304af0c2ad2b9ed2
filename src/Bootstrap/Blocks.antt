-- ===== src/Bootstrap/Blocks.antt =====
-- What the default classifiers keep from being allowed.

use mathlib.Core.List.{Memᴰ}
use osl_agent_sentinel.Prelude.{
  ◌≤◌, ◌≡◌, ◌≢◌, refl, subst, arith, ◌⊎◌, inl, inr, String, Bool, true, ◌||◌, Option, some, List,
  [], ◌∷◌, ◌++◌, any-append, leb, ok, err, Outcome-cases, if◌then◌else◌,
}
use osl_agent_sentinel.Prelude.Text.{take_chars}
use osl_agent_sentinel.Runtime.{Library}
use osl_agent_sentinel.Score.{dec4}
use osl_agent_sentinel.Models.Action.{Action}
use osl_agent_sentinel.Models.Decision.{DecisionVerdict, RiskFactor, Decision}
use osl_agent_sentinel.Models.Identity.{Identity}
use osl_agent_sentinel.Models.Texts.{iter_text}
use osl_agent_sentinel.Dlp.{DlpRule, default_rules, dlp_factor, scan_payload}
use osl_agent_sentinel.Dlp.Found.{scan_payload-IsFound}
use osl_agent_sentinel.Injection.{injection_patterns, model_score}
use osl_agent_sentinel.Injection.Detects.{scan_injection-Detects}
use osl_agent_sentinel.Pipeline.Risk.Floor.{has_severity}
use osl_agent_sentinel.Pipeline.Evaluate.{
  ClassifierFn, PipelineDeps, PipelineState, Reading, Resolution, resolution, caught, gather,
  classifiers, unknown_factor, collect, after_lookup, lookup_identity, evaluate,
}
use osl_agent_sentinel.Pipeline.Refusals.{evaluate-severe, risk_factors-evaluate}
use osl_agent_sentinel.Bootstrap.{
  Environment, World, default_dlp_scanner, default_injection_detector, run_injection, run_dlp,
  default_deps,
}

or_true : (a b : Bool) → b ≡ true → (a || b) ≡ true
or_true a b h = ground arith

severe_member :
    (fs : List RiskFactor) (f : RiskFactor)
    → Memᴰ f fs
    → dec4 3_500 ≤ f.severity
    → has_severity 3_500 fs ≡ true
severe_member [] f m h = elim m [ ]
severe_member (g ∷ fs) f (Memᴰ.head e) h =
    let here : dec4 3_500 ≤ g.severity = subst (λ x. dec4 3_500 ≤ x.severity) e h in ground arith
severe_member (g ∷ fs) f (Memᴰ.tail m) h = ground (arith, severe_member fs f m h)

module _ {W : Type 0} where
  -- A classifier of the list that reports a severe factor in every world.
  has_severity-gather :
      (py : Library) (cs : List (String × ClassifierFn W)) (c : String × ClassifierFn W)
      (action : Action) (identity : Option Identity) (w : W)
      → Memᴰ c cs
      → ((v : W) → has_severity 3_500 (caught py c.0 (c.1 action identity v).0) ≡ true)
      → has_severity 3_500 (gather py cs action identity w).0 ≡ true
  unfolding gather
  has_severity-gather py [] c action identity w m severe = elim m [ ]
  has_severity-gather py (b ∷ cs) c action identity w (Memᴰ.head e) severe =
      let batch = caught py b.0 (b.1 action identity w).0 in
      let rest = (gather py cs action identity (b.1 action identity w).1).0 in
      let here : has_severity 3_500 batch ≡ true =
        subst (λ x. has_severity 3_500 (caught py x.0 (x.1 action identity w).0) ≡ true) e
          (severe w) in
      rw (any-append (λ f. leb (dec4 3_500) f.severity) batch rest, here) refl
  has_severity-gather py (b ∷ cs) c action identity w (Memᴰ.tail m) severe =
      let batch = caught py b.0 (b.1 action identity w).0 in
      let rest = (gather py cs action identity (b.1 action identity w).1).0 in
      let later = has_severity-gather py cs c action identity (b.1 action identity w).1 m severe in
      rw (any-append (λ f. leb (dec4 3_500) f.severity) batch rest)
        (or_true (has_severity 3_500 batch) (has_severity 3_500 rest) later)

  resolved :
      (d : PipelineDeps W) (reading : Reading) (action : Action) (s : PipelineState W)
      (dec : Decision)
      → (evaluate d reading action s).0 ≡ ok dec
      → (found : Resolution) × (resolution (lookup_identity reading action s).0 ≡ ok found)
  unfolding evaluate
  resolved d reading action s dec h =
      elim (Outcome-cases (resolution (lookup_identity reading action s).0)) [
        | inl known ↦ known
        | inr (e, failed) ↦
            let (_, breaker, _) = lookup_identity reading action s in
            let s' : PipelineState W = record s { identity_breaker = breaker } in
            let raised : err e ≡ ok dec =
              subst (λ x. (after_lookup d reading action s' x).0 ≡ ok dec) failed h in
            absurd cc
      ]

-- A text in which a rule of the DLP scanner of severity 0.35 or more finds something, or an injection
-- pattern does in its first 16000 characters.
abbrev pub IsSuspicious : (String → String → Option String) → String → Type 0
IsSuspicious search text =
    ((r : DlpRule) × (found : String) × Memᴰ r default_rules
      × (dec4 3_500 ≤ r.severity)
      × (search r.pattern text ≡ some found))
    ⊎ ((pattern : String) × (found : String) × Memᴰ pattern injection_patterns
        × (search pattern (take_chars 16_000 text) ≡ some found))

module _ (env : Environment) where
  dlp-severe :
      (action : Action) (text : String) (r : DlpRule) (found : String) (py : Library)
      (identity : Option Identity) (w : World)
      → Memᴰ text (iter_text action)
      → Memᴰ r default_rules
      → dec4 3_500 ≤ r.severity
      → env.search r.pattern text ≡ some found
      → has_severity 3_500 (caught py "DLPScanner.scan" (run_dlp env action identity w).0) ≡ true
  dlp-severe action text r found py identity w m d severe hit =
      severe_member (scan_payload env.search default_dlp_scanner action) (dlp_factor r found)
        ((scan_payload-IsFound env.search default_dlp_scanner action (dlp_factor r found)).1
          (refl, (text, r, found, m, d, hit, refl)))
        severe

  injection-severe :
      (action : Action) (text pattern found : String) (py : Library) (identity : Option Identity)
      (w : World)
      → Memᴰ text (iter_text action)
      → Memᴰ pattern injection_patterns
      → env.search pattern (take_chars 16_000 text) ≡ some found
      → has_severity 3_500
          (caught py "PromptInjectionDetector.scan" (run_injection env action identity w).0)
        ≡ true
  unfolding model_score
  injection-severe action text pattern found py identity w m d hit =
      let (f, scanned, low, _) =
        scan_injection-Detects env.search env.injection_numerals default_injection_detector action
          text pattern found m d hit (omega arith) in
      rw scanned (severe_member (f ∷ []) f (Memᴰ.head refl) (omega (arith, low)))

  suspicious-severe :
      (action : Action) (text : String) (py : Library) (identity : Option Identity) (w : World)
      → Memᴰ text (iter_text action)
      → IsSuspicious env.search text
      → has_severity 3_500 (gather py (classifiers (default_deps env)) action identity w).0 ≡ true
  unfolding default_deps
  suspicious-severe action text py identity w m (inl (r, found, d, severe, hit)) =
      has_severity-gather py (classifiers (default_deps env)) ("DLPScanner.scan", run_dlp env)
        action identity w (Memᴰ.tail (Memᴰ.tail (Memᴰ.tail (Memᴰ.tail (Memᴰ.head refl)))))
        (λ v. dlp-severe action text r found py identity v m d severe hit)
  suspicious-severe action text py identity w m (inr (pattern, found, d, hit)) =
      has_severity-gather py (classifiers (default_deps env))
        ("PromptInjectionDetector.scan", run_injection env) action identity w
        (Memᴰ.tail (Memᴰ.tail (Memᴰ.tail (Memᴰ.head refl))))
        (λ v. injection-severe action text pattern found py identity v m d hit)

  -- With the default classifiers an action is never allowed if one of the texts that the scanners read,
  -- which are its intent, the texts at the top level of its arguments and those in a list there, but
  -- none in a nested dict, is suspicious: if a DLP rule of severity 0.35 or more finds something in it,
  -- such as a key, a token or a card number, or an injection pattern does in its first 16000
  -- characters. This holds whatever the policy, the identity and the other classifiers say.
  pub evaluate-Blocks :
      (reading : Reading) (action : Action) (s : PipelineState World) (dec : Decision)
      (text : String)
      → (evaluate (default_deps env) reading action s).0 ≡ ok dec
      → Memᴰ text (iter_text action)
      → IsSuspicious env.search text
      → dec.verdict ≢ DecisionVerdict.allow
  unfolding collect
  evaluate-Blocks reading action s dec text h m suspicious =
      let d = default_deps env in
      let (found, r) = resolved d reading action s dec h in
      let batches = (gather d.library (classifiers d) action found.identity s.world).0 in
      let unknown = if found.identity_unknown then unknown_factor action ∷ [] else [] in
      let severe : has_severity 3_500 (unknown ++ batches) ≡ true =
        rw (any-append (λ f. leb (dec4 3_500) f.severity) unknown batches) (
          or_true (has_severity 3_500 unknown) (has_severity 3_500 batches)
            (suspicious-severe action text d.library found.identity s.world m suspicious)) in
      evaluate-severe d reading action s dec h (
        subst (λ fs. has_severity 3_500 fs ≡ true)
          (risk_factors-evaluate d reading action s dec found r h) severe)
