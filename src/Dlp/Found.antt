-- ===== src/Dlp/Found.antt =====
-- What the DLP scanner reports.
use mathlib.Core.List.Memᴰ
use mathlib.Core.List.{Memᴰ}
use osl_agent_sentinel.Prelude.{
  ◌≡◌, refl, ◌↔◌, ◌⊎◌, inl, inr, sym, String, Bool, true, false, Option, none, some, if◌then◌else◌,
  List, [], ◌∷◌,
}
use osl_agent_sentinel.Models.Action.{Action}
use osl_agent_sentinel.Models.Decision.{RiskFactor}
use osl_agent_sentinel.Models.Texts.{iter_text}
use osl_agent_sentinel.Dlp.{
  DlpRule, DlpScanner, dlp_factor, found_factor, scan_text, scan_texts, scan_payload,
}

gated :
    (on : Bool) (xs : List RiskFactor) (f : RiskFactor)
    → Memᴰ f (if on then xs else []) ↔ ((on ≡ true) × Memᴰ f xs)
gated true xs f = (λ m. (refl, m), λ (_, m). m)
gated false xs f = (λ m. elim m [ ], λ (h, _). cc)

module _ (search : String → String → Option String) where
  -- The factor is that of a rule of the list whose pattern is found in one of the texts.
  abbrev pub IsFound : List DlpRule → List String → RiskFactor → Type 0
  IsFound rules texts f =
      (text : String) × (r : DlpRule) × (found : String) × Memᴰ text texts
      × Memᴰ r rules
      × (search r.pattern text ≡ some found)
      × (f ≡ dlp_factor r found)

  abbrev InText : List DlpRule → String → RiskFactor → Type 0
  InText rules text f =
      (r : DlpRule) × (found : String) × Memᴰ r rules
      × (search r.pattern text ≡ some found)
      × (f ≡ dlp_factor r found)

  found_factor-cases :
      (r : DlpRule) (o : Option String) (rest : List RiskFactor) (f : RiskFactor)
      → Memᴰ f (found_factor search r o rest)
      → ((found : String) × (o ≡ some found) × (f ≡ dlp_factor r found)) ⊎ Memᴰ f rest
  found_factor-cases r none rest f m = inr m
  found_factor-cases r (some found) rest f (Memᴰ.head e) = inl (found, refl, e)
  found_factor-cases r (some found) rest f (Memᴰ.tail m) = inr m

  Memᴰ-found_factor :
      (r : DlpRule) (o : Option String) (rest : List RiskFactor) (f : RiskFactor)
      → Memᴰ f rest
      → Memᴰ f (found_factor search r o rest)
  Memᴰ-found_factor r none rest f m = m
  Memᴰ-found_factor r (some found) rest f m = Memᴰ.tail m

  in_text :
      (text : String) (rules : List DlpRule) (f : RiskFactor)
      → Memᴰ f (scan_text search text rules)
      → InText rules text f
  unfolding scan_text
  in_text text [] f m = elim m [ ]
  in_text text (r ∷ rules) f m =
      elim (found_factor-cases r (search r.pattern text) (scan_text search text rules) f m) [
        | inl (found, hit, e) ↦ (r, found, Memᴰ.head refl, hit, e)
        | inr later ↦
            let (s, found, d, hit, e) = in_text text rules f later in
            (s, found, Memᴰ.tail d, hit, e)
      ]

  reported :
      (text : String) (rules : List DlpRule) (r : DlpRule) (found : String)
      → Memᴰ r rules
      → search r.pattern text ≡ some found
      → Memᴰ (dlp_factor r found) (scan_text search text rules)
  unfolding scan_text
  reported text [] r found m hit = elim m [ ]
  reported text (s ∷ rules) r found (Memᴰ.head e) hit = rw (sym e, hit) (Memᴰ.head refl)
  reported text (s ∷ rules) r found (Memᴰ.tail m) hit =
      Memᴰ-found_factor s (search s.pattern text) (scan_text search text rules) (dlp_factor r found)
        (reported text rules r found m hit)

  in_texts :
      (rules : List DlpRule) (texts : List String) (f : RiskFactor)
      → Memᴰ f (scan_texts search rules texts)
      → IsFound rules texts f
  unfolding scan_texts
  in_texts rules [] f m = elim m [ ]
  in_texts rules (text ∷ texts) f m = elim (Memᴰ.append_cases (scan_text search text rules) m) [
    | inl here ↦
        let (r, found, d, hit, e) = in_text text rules f here in
        (text, r, found, Memᴰ.head refl, d, hit, e)
    | inr later ↦
        let (t, r, found, at_text, d, hit, e) = in_texts rules texts f later in
        (t, r, found, Memᴰ.tail at_text, d, hit, e)
  ]

  all_reported :
      (rules : List DlpRule) (texts : List String) (f : RiskFactor)
      → IsFound rules texts f
      → Memᴰ f (scan_texts search rules texts)
  unfolding scan_texts
  all_reported rules [] f (t, r, found, m, d, hit, e) = elim m [ ]
  all_reported rules (text ∷ texts) f (t, r, found, Memᴰ.head same, d, hit, e) =
      Memᴰ.append_left (scan_texts search rules texts)
        (rw (e, sym same) (reported t rules r found d hit))
  all_reported rules (text ∷ texts) f (t, r, found, Memᴰ.tail m, d, hit, e) =
      Memᴰ.append_right (scan_text search text rules)
        (all_reported rules texts f (t, r, found, m, d, hit, e))

  -- An enabled scanner reports exactly what there is to report: a factor is in the result if and
  -- only if it is that of a rule of the scanner whose pattern is found in one of the texts of the
  -- action; a scanner that is not enabled reports nothing.
  pub scan_payload-IsFound :
      (scanner : DlpScanner) (action : Action) (f : RiskFactor)
      → Memᴰ f (scan_payload search scanner action)
        ↔ ((scanner.enabled ≡ true) × IsFound scanner.rules (iter_text action) f)
  unfolding scan_payload
  scan_payload-IsFound scanner action f =
      let found = scan_texts search scanner.rules (iter_text action) in
      let (out, into) = gated scanner.enabled found f in
      (
        λ m. let (on, d) = out m in (on, in_texts scanner.rules (iter_text action) f d),
        λ (on, h). into (on, all_reported scanner.rules (iter_text action) f h),
      )
