-- ===== src/Signatures/Loader/RoundTrip.antt =====
-- What `policy sign` writes, and whether the loader accepts it.
use osl_agent_sentinel.Prelude.{
  ◌≡◌, ◌≢◌, refl, sym, ap, ◌∙◌, subst, String, true, false, none, some, Bool-cases, inl, inr, ok,
  err, ◌>>=◌, Error, ◌==◌, string_eq, if◌then◌else◌,
}
use osl_agent_sentinel.Models.Value.{null, str, dict, Fields, get_field, eq_value}
use osl_agent_sentinel.Models.Edit.{
  remove_field, set_field, get_field-set_field, remove_field-set_field, eq_found,
  eq_value-get_field,
}
use osl_agent_sentinel.Models.Dump.{text_or_null}
use osl_agent_sentinel.Models.Policy.{PolicyBundle}
use osl_agent_sentinel.Signatures.Canonical.{Encoders, IsCanonical, IsFaithful}
use osl_agent_sentinel.Signatures.Scheme.{
  SignatureScheme, IsSound, sign_value, verify_value, sign_value-ok, sign_value-binds,
  sign_value-nonempty, verify_value-ok,
}
use osl_agent_sentinel.Signatures.Loader.{
  BundleCodec, is_yaml, has_yaml_suffix, parse_text, load_bundle, policy_sign,
}

abbrev pub unsigned : PolicyBundle → PolicyBundle
unsigned b = record b { signature = none }

-- What the codec does to this bundle: YAML reads its dump back, with whatever signature was put into
-- it; the dump has the bundle's signature under its name; and the dump without it validates to the
-- bundle without a signature.
pub record IsCodec (codec : BundleCodec) (b : PolicyBundle) : Type 0 where
  pub reads :
      (signature : String)
      → codec.safe_load
          (codec.safe_dump (set_field "signature" (str signature) (codec.model_dump b)))
        ≡ ok (dict (set_field "signature" (str signature) (codec.model_dump b)))
  pub dumps : get_field "signature" (codec.model_dump b) ≡ some (text_or_null b.signature)
  pub dumps_unsigned : get_field "signature" (codec.model_dump (unsigned b)) ≡ some null
  pub validates :
      codec.model_validate (remove_field "signature" (codec.model_dump b)) ≡ ok (unsigned b)

module _ (enc : Encoders) (codec : BundleCodec) {PrivateKey PublicKey : Type 0}
    (scheme : SignatureScheme PrivateKey PublicKey) (canonical : IsCanonical enc)
    (sound : IsSound scheme) (key : PrivateKey) (b : PolicyBundle) (law : IsCodec codec b) where
  -- The file that is written for a bundle with this signature.
  abbrev pub signed_text : String → String
  signed_text signature =
      codec.safe_dump (set_field "signature" (str signature) (codec.model_dump b))

  -- The loader reads the bundle without its signature from it, and checks that signature.
  load_bundle-signed_text :
      (out : String) (text sig : String)
      → is_yaml out ≡ true
      → (text == "") ≡ false
      → scheme.b64decode text ≡ some sig
      → load_bundle enc codec scheme out (signed_text text) (some (scheme.public_key key)) ≡ (
          verify_value enc scheme (scheme.public_key key) sig (dict (codec.model_dump (unsigned b)))
          >>= λ valid. if valid then ok (unsigned b) else err Error.policy_error)
  unfolding load_bundle
  load_bundle-signed_text out text sig yaml there decoded =
      let content = set_field "signature" (str text) (codec.model_dump b) in
      rw (
        yaml,
        law.reads text,
        remove_field-set_field "signature" (str text) (codec.model_dump b),
        law.validates,
        get_field-set_field "signature" (str text) (codec.model_dump b),
        there,
        decoded,
      )

  policy_sign-ok :
      (path raw : String) (content : Fields) (text : String)
      → parse_text codec (has_yaml_suffix codec path) raw ≡ ok (dict content)
      → codec.model_validate content ≡ ok b
      → sign_value enc scheme key (dict (codec.model_dump b)) ≡ ok text
      → policy_sign enc codec scheme path raw key ≡ ok (signed_text text)
  unfolding policy_sign
  policy_sign-ok path raw content text parsed valid made = rw (parsed, valid, made)

  -- A bundle without a signature that `policy sign` writes to a YAML path is loaded from there under
  -- the public key of the signer, unchanged.
  pub load_bundle-policy_sign :
      (path raw out : String) (content : Fields)
      → parse_text codec (has_yaml_suffix codec path) raw ≡ ok (dict content)
      → codec.model_validate content ≡ ok b
      → b.signature ≡ none
      → is_yaml out ≡ true
      → (written : String) × (policy_sign enc codec scheme path raw key ≡ ok written)
        × (load_bundle enc codec scheme out written (some (scheme.public_key key)) ≡ ok b)
  load_bundle-policy_sign path raw out content parsed valid fresh yaml =
      let (text, sig, made, decoded, accepted) =
        sign_value-ok enc scheme canonical sound key (dict (codec.model_dump b)) in
      let same : unsigned b ≡ b = ap (λ s. record b { signature = s }) (sym fresh) in
      (
        signed_text text,
        policy_sign-ok path raw content text parsed valid made,
        rw
            (
              load_bundle-signed_text out text sig yaml
                  (sign_value-nonempty enc scheme canonical sound key (dict (codec.model_dump b))
                    text made)
                  decoded,
              same,
              accepted,
            )
            refl,
      )

  not_unsigned :
      (s : String)
      → b.signature ≡ some s
      → eq_value (dict (codec.model_dump b)) (dict (codec.model_dump (unsigned b))) ≢ true
  unfolding eq_value
  not_unsigned s there same =
      let found : get_field "signature" (codec.model_dump b) ≡ some (str s) =
        law.dumps ∙ ap (λ o. some (text_or_null o)) there in
      let other =
        eq_value-get_field "signature" (str s) (codec.model_dump b) (codec.model_dump (unsigned b))
          same found in
      let clash : eq_value (str s) null ≡ true =
        subst (λ o. eq_found (str s) o ≡ true) law.dumps_unsigned other in
      cc

  -- A bundle that carries a signature already is signed together with it, and the loader, which
  -- takes the signature out first, refuses what `policy sign` has written.
  pub load_bundle-policy_resign :
      (path raw out : String) (content : Fields) (s : String)
      → parse_text codec (has_yaml_suffix codec path) raw ≡ ok (dict content)
      → codec.model_validate content ≡ ok b
      → b.signature ≡ some s
      → IsFaithful enc (dict (codec.model_dump b))
      → is_yaml out ≡ true
      → (written : String) × (policy_sign enc codec scheme path raw key ≡ ok written)
        × (load_bundle enc codec scheme out written (some (scheme.public_key key))
            ≡ err Error.policy_error)
  load_bundle-policy_resign path raw out content s parsed valid there faithful yaml =
      let (text, sig, made, decoded, accepted) =
        sign_value-ok enc scheme canonical sound key (dict (codec.model_dump b)) in
      let (valid_now, checked) =
        verify_value-ok enc scheme canonical sound (scheme.public_key key) sig
          (dict (codec.model_dump (unsigned b))) in
      let invalid : valid_now ≡ false = elim (Bool-cases valid_now) [
        | inl accepted_now ↦ absurd (
            not_unsigned s there (
              sign_value-binds enc scheme canonical sound key (dict (codec.model_dump b))
                (dict (codec.model_dump (unsigned b))) text sig faithful made decoded
                (checked ∙ ap ok accepted_now)))
        | inr refused ↦ refused
      ] in
      (
        signed_text text,
        policy_sign-ok path raw content text parsed valid made,
        rw
            (
              load_bundle-signed_text out text sig yaml
                  (sign_value-nonempty enc scheme canonical sound key (dict (codec.model_dump b))
                    text made)
                  decoded,
              checked,
              invalid,
            )
            refl,
      )
