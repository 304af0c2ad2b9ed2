-- ===== src/Signatures/Scheme.antt =====
-- sentinel/utils/crypto.py over Ed25519 and base64, which are parameters.
use osl_agent_sentinel.Prelude.{
  ◌≡◌, refl, String, Bool, true, Option, some, Outcome, ok, false, ◌==◌, string_eq, ok-injective,
  ◌>>=◌, subst, >>=-returns,
}
use osl_agent_sentinel.Models.Value.{Value, eq_value}
use osl_agent_sentinel.Signatures.Canonical.{
  Encoders, canonical_bytes, IsCanonical, IsFaithful, canonical_bytes-ok,
}

-- `private_key.sign`, whether `public_key.verify` returns, `public_key()`, `b64encode`, and
-- `b64decode`, where `none` is a `ValueError`.
pub record SignatureScheme (PrivateKey PublicKey : Type 0) : Type 0 where
  pub sign : PrivateKey → String → String
  pub verify : PublicKey → String → String → Bool
  pub public_key : PrivateKey → PublicKey
  pub b64encode : String → String
  pub b64decode : String → Option String

-- A signature is accepted for the payload that was signed and for no other payload, and its base64
-- text is not empty; base64 is a round trip.
pub record IsSound {PrivateKey PublicKey : Type 0} (scheme : SignatureScheme PrivateKey PublicKey)
    : Type 0 where
  pub accepts :
      (key : PrivateKey) (payload : String)
      → scheme.verify (scheme.public_key key) (scheme.sign key payload) payload ≡ true
  pub binds :
      (key : PrivateKey) (signed payload : String)
      → scheme.verify (scheme.public_key key) (scheme.sign key signed) payload ≡ true
      → signed ≡ payload
  pub nonempty :
      (key : PrivateKey) (payload : String)
      → (scheme.b64encode (scheme.sign key payload) == "") ≡ false
  pub decodes : (bytes : String) → scheme.b64decode (scheme.b64encode bytes) ≡ some bytes

module _ (enc : Encoders) {PrivateKey PublicKey : Type 0}
    (scheme : SignatureScheme PrivateKey PublicKey) where
  -- `b64encode(sign(key, canonical_bytes(value)))`
  unfoldable pub sign_value : PrivateKey → Value → Outcome String
  sign_value key value =
      canonical_bytes enc value >>= λ bytes. ok (scheme.b64encode (scheme.sign key bytes))

  -- `verify(key, sig, canonical_bytes(value))`
  unfoldable pub verify_value : PublicKey → String → Value → Outcome Bool
  verify_value key sig value =
      canonical_bytes enc value >>= λ bytes. ok (scheme.verify key sig bytes)

  module _ (canonical : IsCanonical enc) (sound : IsSound scheme) where
    -- Any value can be signed, and the signature is accepted for it.
    pub sign_value-ok :
        (key : PrivateKey) (value : Value)
        → (text sig : String) × (sign_value key value ≡ ok text)
          × (scheme.b64decode text ≡ some sig)
          × (verify_value (scheme.public_key key) sig value ≡ ok true)
    unfolding sign_value verify_value
    sign_value-ok key value =
        let (bytes, e) = canonical_bytes-ok enc canonical value in
        let sig = scheme.sign key bytes in
        (
          scheme.b64encode sig,
          sig,
          rw e refl,
          sound.decodes sig,
          rw (e, sound.accepts key bytes) refl,
        )

    -- A signature that is accepted for another value was made for an equal one.
    pub sign_value-binds :
        (key : PrivateKey) (signed value : Value) (text sig : String)
        → IsFaithful enc signed
        → sign_value key signed ≡ ok text
        → scheme.b64decode text ≡ some sig
        → verify_value (scheme.public_key key) sig value ≡ ok true
        → eq_value signed value ≡ true
    unfolding sign_value verify_value
    sign_value-binds key signed value text sig faithful made decoded accepted =
        let (bytes, e, made') =
          >>=-returns (canonical_bytes enc signed)
            (λ bytes. ok (scheme.b64encode (scheme.sign key bytes))) made in
        let (bytes', e', accepted') =
          >>=-returns (canonical_bytes enc value)
            (λ bytes. ok (scheme.verify (scheme.public_key key) sig bytes)) accepted in
        let same_sig : scheme.sign key bytes ≡ sig = cc (sound.decodes (scheme.sign key bytes)) in
        let same : bytes ≡ bytes' =
          sound.binds key bytes bytes' (rw same_sig (ok-injective accepted')) in
        faithful value bytes e (rw same e')

    -- The text of a signature is not empty, and any value can be checked against it.
    pub sign_value-nonempty :
        (key : PrivateKey) (value : Value) (text : String)
        → sign_value key value ≡ ok text
        → (text == "") ≡ false
    unfolding sign_value
    sign_value-nonempty key value text made =
        let (bytes, e, made') =
          >>=-returns (canonical_bytes enc value)
            (λ bytes. ok (scheme.b64encode (scheme.sign key bytes))) made in
        subst (λ t. (t == "") ≡ false) (ok-injective made') (sound.nonempty key bytes)

    pub verify_value-ok :
        (key : PublicKey) (sig : String) (value : Value)
        → (valid : Bool) × (verify_value key sig value ≡ ok valid)
    unfolding verify_value
    verify_value-ok key sig value =
        let (bytes, e) = canonical_bytes-ok enc canonical value in
        (scheme.verify key sig bytes, rw e refl)
