-- ===== src/Signatures/Loader/Reloads.antt =====
-- The bundle that a `PolicyLoader` holds while its file changes.
use mathlib.Core.List.{Memᴰ}
use osl_agent_sentinel.Prelude.{
  ◌≡◌, refl, String, Bool, true, false, Option, none, some, Outcome, ok, err, ok-injective, ◌>>=◌,
  >>=-returns, Error, List, [], ◌∷◌, if◌then◌else◌, not, subst, ap, arith, ◌∙◌, Option-cases, inl,
  inr,
}
use osl_agent_sentinel.Models.Value.{
  Value, Fields, null, bool, int, float, str, list, dict, get_field, is_truthy,
}
use osl_agent_sentinel.Models.Edit.{remove_field}
use osl_agent_sentinel.Models.Policy.{PolicyBundle}
use osl_agent_sentinel.Signatures.Canonical.{Encoders}
use osl_agent_sentinel.Signatures.Scheme.{SignatureScheme, verify_value}
use osl_agent_sentinel.Signatures.Loader.{
  BundleCodec, is_yaml, parse_text, as_mapping, or_null, decode_signature, check_bundle, check_for,
  load_bundle, PolicyLoader, keep, reload, loaded_bundle,
}

refuse-returns :
    (refused : Bool) (next : Outcome PolicyBundle) {b : PolicyBundle}
    → (if refused then err Error.policy_error else next) ≡ ok b
    → (refused ≡ false) × (next ≡ ok b)
refuse-returns true next h = cc
refuse-returns false next h = (refl, h)

some_inj : {b c : PolicyBundle} → some b ≡ some c → b ≡ c
some_inj h = cc

or_error-some :
    (o : Option PolicyBundle) {b : PolicyBundle}
    → elim o [ none ↦ err Error.policy_error | some c ↦ ok c ] ≡ ok b
    → o ≡ some b
or_error-some none h = cc
or_error-some (some c) h = ap some (ok-injective h)

only_if-returns :
    (valid : Bool) (bundle : PolicyBundle) {b : PolicyBundle}
    → (if valid then ok bundle else err Error.policy_error) ≡ ok b
    → (valid ≡ true) × (bundle ≡ b)
only_if-returns true bundle h = (refl, ok-injective h)
only_if-returns false bundle h = cc

as_mapping-ok : (v : Value) {fields : Fields} → as_mapping v ≡ ok fields → v ≡ dict fields
as_mapping-ok (dict entries) h = ap dict (ok-injective h)
as_mapping-ok null h = cc
as_mapping-ok (bool x) h = cc
as_mapping-ok (int x) h = cc
as_mapping-ok (float x) h = cc
as_mapping-ok (str x) h = cc
as_mapping-ok (list x) h = cc

module _ (enc : Encoders) (codec : BundleCodec) {PrivateKey PublicKey : Type 0}
    (scheme : SignatureScheme PrivateKey PublicKey) where
  -- `PolicyLoader(path, public_key=...)`
  abbrev pub new_loader : String → Option PublicKey → PolicyLoader enc codec scheme
  new_loader path key = record { path = path; public_key = key; bundle = none }

  -- The loader after reloads of a file that held these texts, the last one first.
  abbrev pub reloads : PolicyLoader enc codec scheme → List String → PolicyLoader enc codec scheme
  reloads l [] = l
  reloads l (raw ∷ earlier) = (reload enc codec scheme (reloads l earlier) raw).1

  -- The text holds the bundle next to a signature of it, and that signature is accepted under the key.
  abbrev pub IsSignedIn : PublicKey → String → String → PolicyBundle → Type 0
  IsSignedIn key path raw b =
      (fields : Fields) × (text : String) × (sig : String) × (parse_text codec (is_yaml path) raw
        ≡ ok (dict fields))
      × (get_field "signature" fields ≡ some (str text))
      × (codec.model_validate (remove_field "signature" fields) ≡ ok b)
      × (scheme.b64decode text ≡ some sig)
      × (verify_value enc scheme key sig (dict (codec.model_dump b)) ≡ ok true)

  -- One of the texts is so.
  abbrev pub IsVerified : PublicKey → String → List String → PolicyBundle → Type 0
  IsVerified key path texts b = (raw : String) × Memᴰ raw texts × IsSignedIn key path raw b

  decode_signature-ok :
      (v : Value) {sig : String}
      → decode_signature enc codec scheme v ≡ ok sig
      → (text : String) × (v ≡ str text) × (scheme.b64decode text ≡ some sig)
  decode_signature-ok (str text) h = elim (Option-cases (scheme.b64decode text)) [
    | inl bad ↦ absurd (ground arith)
    | inr (found, e) ↦ (text, refl, e ∙ ap some (ok-injective (ground arith)))
  ]
  decode_signature-ok null h = cc
  decode_signature-ok (bool x) h = cc
  decode_signature-ok (int x) h = cc
  decode_signature-ok (float x) h = cc
  decode_signature-ok (list x) h = cc
  decode_signature-ok (dict x) h = cc

  or_null-str :
      (o : Option Value) (text : String)
      → or_null enc codec scheme o ≡ str text
      → o ≡ some (str text)
  or_null-str none text h = cc
  or_null-str (some v) text h = ap some h

  check_bundle-ok :
      (key : PublicKey) (signature : Value) (parsed b : PolicyBundle)
      → check_bundle enc codec scheme key signature parsed ≡ ok b
      → (text : String) × (sig : String) × (signature ≡ str text)
        × (parsed ≡ b)
        × (scheme.b64decode text ≡ some sig)
        × (verify_value enc scheme key sig (dict (codec.model_dump b)) ≡ ok true)
  check_bundle-ok key signature parsed b checked =
      let (_, rest) = refuse-returns (not (is_truthy signature)) _ checked in
      let (sig, decoded, rest) =
        >>=-returns (decode_signature enc codec scheme signature)
          (λ sig. verify_value enc scheme key sig (dict (codec.model_dump parsed)) >>= λ valid.
            if valid then ok parsed else err Error.policy_error)
          rest in
      let (text, is_text, from_text) = decode_signature-ok signature decoded in
      let (valid, verified, kept) =
        >>=-returns (verify_value enc scheme key sig (dict (codec.model_dump parsed)))
          (λ valid. if valid then ok parsed else err Error.policy_error) rest in
      let (accepted, same) = only_if-returns valid parsed kept in
      (
        text,
        sig,
        is_text,
        same,
        from_text,
        subst (λ p. verify_value enc scheme key sig (dict (codec.model_dump p)) ≡ ok true) same
            (verified ∙ ap ok accepted),
      )

  pub load_bundle-IsSignedIn :
      (path raw : String) (key : PublicKey) (b : PolicyBundle)
      → load_bundle enc codec scheme path raw (some key) ≡ ok b
      → IsSignedIn key path raw b
  unfolding load_bundle
  load_bundle-IsSignedIn path raw key b loaded =
      let (content, parsed, rest) =
        >>=-returns (parse_text codec (is_yaml path) raw)
          (λ content. as_mapping content >>= λ fields.
            codec.model_validate (remove_field "signature" fields) >>= λ bundle.
            check_for enc codec scheme (some key)
              (or_null enc codec scheme (get_field "signature" fields)) bundle)
          loaded in
      let (fields, mapping, rest) =
        >>=-returns (as_mapping content)
          (λ fields. codec.model_validate (remove_field "signature" fields) >>= λ bundle.
            check_for enc codec scheme (some key)
              (or_null enc codec scheme (get_field "signature" fields)) bundle)
          rest in
      let (bundle, valid, checked) =
        >>=-returns (codec.model_validate (remove_field "signature" fields))
          (λ bundle.
            check_for enc codec scheme (some key)
              (or_null enc codec scheme (get_field "signature" fields)) bundle)
          rest in
      let (text, sig, is_text, same, decoded, accepted) =
        check_bundle-ok key (or_null enc codec scheme (get_field "signature" fields)) bundle b
          checked in
      (
        fields,
        text,
        sig,
        parsed ∙ ap ok (as_mapping-ok content mapping),
        or_null-str (get_field "signature" fields) text is_text,
        valid ∙ ap ok same,
        decoded,
        accepted,
      )

  keep-IsVerified :
      (key : PublicKey) (path : String) (texts : List String) (l : PolicyLoader enc codec scheme)
      (loaded : Outcome PolicyBundle) (b : PolicyBundle)
      → ((c : PolicyBundle) → loaded ≡ ok c → IsVerified key path texts c)
      → ((c : PolicyBundle) → l.bundle ≡ some c → IsVerified key path texts c)
      → (keep enc codec scheme l loaded).1.bundle ≡ some b
      → IsVerified key path texts b
  keep-IsVerified key path texts l (ok c) b now before held = now b (ap ok (some_inj held))
  keep-IsVerified key path texts l (err e) b now before held = before b held

  keep-fixed :
      (l : PolicyLoader enc codec scheme) (loaded : Outcome PolicyBundle)
      → ((keep enc codec scheme l loaded).1.path ≡ l.path)
        × ((keep enc codec scheme l loaded).1.public_key ≡ l.public_key)
  keep-fixed l (ok c) = (refl, refl)
  keep-fixed l (err e) = (refl, refl)

  reloads-fixed :
      (l : PolicyLoader enc codec scheme) (texts : List String)
      → ((reloads l texts).path ≡ l.path) × ((reloads l texts).public_key ≡ l.public_key)
  unfolding reload
  reloads-fixed l [] = (refl, refl)
  reloads-fixed l (raw ∷ earlier) =
      let at_now : PolicyLoader enc codec scheme = reloads l earlier in
      let (p, k) = reloads-fixed l earlier in
      let (p', k') =
        keep-fixed at_now (load_bundle enc codec scheme at_now.path raw at_now.public_key) in
      (p' ∙ p, k' ∙ k)

  held-IsVerified :
      (path : String) (key : PublicKey) (texts : List String) (b : PolicyBundle)
      → (reloads (new_loader path (some key)) texts).bundle ≡ some b
      → IsVerified key path texts b
  unfolding reload
  held-IsVerified path key [] b held = cc
  held-IsVerified path key (raw ∷ earlier) b held =
      let l : PolicyLoader enc codec scheme = reloads (new_loader path (some key)) earlier in
      let (there, same) = reloads-fixed (new_loader path (some key)) earlier in
      keep-IsVerified key path (raw ∷ earlier) l
        (load_bundle enc codec scheme l.path raw l.public_key) b
        (λ c loaded.
          let now : load_bundle enc codec scheme path raw (some key) ≡ ok c =
            subst (λ k. load_bundle enc codec scheme path raw k ≡ ok c) same
              (subst (λ p. load_bundle enc codec scheme p raw l.public_key ≡ ok c) there loaded) in
          (raw, Memᴰ.head refl, load_bundle-IsSignedIn path raw key c now))
        (λ c before.
          let (old, m, signed) = held-IsVerified path key earlier c before in
          (old, Memᴰ.tail m, signed))
        held

  -- Whatever texts the file of a loader with a key has held, and whichever of its reloads failed, a
  -- bundle that the loader gives out is the content of one of these texts, next to a signature in that
  -- text that is accepted for the bundle under the key.
  pub reloads-IsVerified :
      (path : String) (key : PublicKey) (texts : List String) (b : PolicyBundle)
      → loaded_bundle enc codec scheme (reloads (new_loader path (some key)) texts) ≡ ok b
      → IsVerified key path texts b
  unfolding loaded_bundle
  reloads-IsVerified path key texts b held =
      held-IsVerified path key texts b
        (or_error-some (reloads (new_loader path (some key)) texts).bundle held)
