-- ===== src/Signatures/Iatp.antt =====
-- sentinel/comms/iatp.py. The text of a time is a parameter.
use osl_agent_sentinel.Prelude.{
  ℕ, ◌≡◌, refl, sym, arith, ap, ◌∙◌, String, Bool, true, false, Option, none, some, Outcome, ok,
  ◌>>=◌, >>=-returns, Option-cases, inl, inr, string_eq, ok-injective, subst,
}
use osl_agent_sentinel.Models.Value.{pos, Value, int, str, dict, Fields, no_fields, entry, eq_value}
use osl_agent_sentinel.Models.Equal.{&&-parts, eq_value-str, eq_value-pos}
use osl_agent_sentinel.Signatures.Canonical.{Encoders, IsCanonical, IsFaithful}
use osl_agent_sentinel.Signatures.Scheme.{
  SignatureScheme, IsSound, sign_value, verify_value, sign_value-ok, sign_value-binds,
}

pub record IatpEnvelope : Type 0 where
  pub sender_did : String
  pub recipient_did : String
  pub conversation_id : String
  pub nonce : ℕ
  pub issued_at : ℕ
  pub intent : String
  pub body : Fields
  pub signature_b64 : Option String

module _ (isoformat : ℕ → String) where
  -- `model_dump(mode="json", exclude={"signature_b64"})`
  unfoldable pub canonical_body : IatpEnvelope → Value
  canonical_body e = dict (
      entry "sender_did" (str e.sender_did) (
        entry "recipient_did" (str e.recipient_did) (
          entry "conversation_id" (str e.conversation_id) (
            entry "nonce" (int (pos e.nonce)) (
              entry "issued_at" (str (isoformat e.issued_at))
                (entry "intent" (str e.intent) (entry "body" (dict e.body) no_fields)))))))

-- Whoever the message came from, to whom, in which conversation, with which nonce, at which time, as
-- far as its text tells, and with which intent and body.
abbrev pub SameMessage : (ℕ → String) → IatpEnvelope → IatpEnvelope → Type 0
SameMessage isoformat e f =
    (e.sender_did ≡ f.sender_did)
    × (e.recipient_did ≡ f.recipient_did)
    × (e.conversation_id ≡ f.conversation_id)
    × (e.nonce ≡ f.nonce)
    × (isoformat e.issued_at ≡ isoformat f.issued_at)
    × (e.intent ≡ f.intent)
    × (eq_value (dict e.body) (dict f.body) ≡ true)

canonical_body-SameMessage :
    (isoformat : ℕ → String) (e f : IatpEnvelope)
    → eq_value (canonical_body isoformat e) (canonical_body isoformat f) ≡ true
    → SameMessage isoformat e f
unfolding canonical_body eq_value
canonical_body-SameMessage isoformat e f h =
    let (sender, h) = &&-parts _ _ h in
    let (recipient, h) = &&-parts _ _ h in
    let (conversation, h) = &&-parts _ _ h in
    let (nonce, h) = &&-parts _ _ h in
    let (time, h) =
      &&-parts (eq_value (str (isoformat e.issued_at)) (str (isoformat f.issued_at))) _ h in
    let (intent, h) = &&-parts _ _ h in
    let (body, _) = &&-parts (eq_value (dict e.body) (dict f.body)) true h in
    (
      eq_value-str e.sender_did f.sender_did sender,
      eq_value-str e.recipient_did f.recipient_did recipient,
      eq_value-str e.conversation_id f.conversation_id conversation,
      eq_value-pos e.nonce f.nonce nonce,
      eq_value-str (isoformat e.issued_at) (isoformat f.issued_at) time,
      eq_value-str e.intent f.intent intent,
      body,
    )

module _ (enc : Encoders) (isoformat : ℕ → String) {PrivateKey PublicKey : Type 0}
    (scheme : SignatureScheme PrivateKey PublicKey) where
  -- An `IATPTransport`: its two keys.
  abbrev pub IatpTransport : Type 0
  IatpTransport = PrivateKey × PublicKey

  unfoldable pub seal : IatpTransport → IatpEnvelope → Outcome IatpEnvelope
  unfolding canonical_body
  seal (priv, _) envelope =
      sign_value enc scheme priv (canonical_body isoformat envelope) >>= λ signature.
      ok (record envelope { signature_b64 = some signature })

  abbrev pub or_own : PublicKey → Option PublicKey → PublicKey
  or_own own none = own
  or_own own (some key) = key

  abbrev pub check_decoded : PublicKey → Value → Option String → Outcome Bool
  check_decoded key body none = ok false
  check_decoded key body (some sig) = verify_value enc scheme key sig body

  abbrev pub check_signature : PublicKey → Value → Option String → Outcome Bool
  check_signature key body none = ok false
  check_signature key body (some signature) = check_decoded key body (scheme.b64decode signature)

  unfoldable pub verify : IatpTransport → IatpEnvelope → Option PublicKey → Outcome Bool
  unfolding canonical_body
  verify (_, own) envelope public_key =
      check_signature (or_own own public_key) (canonical_body isoformat envelope)
        envelope.signature_b64

  module _ (canonical : IsCanonical enc) (sound : IsSound scheme) where
    -- Sealing never fails, and the sealed envelope verifies under the sender's key at any transport,
    -- each time it is received: `verify` keeps no nonces.
    pub verify-seal :
        (priv : PrivateKey) (own receiver : PublicKey) (other : PrivateKey)
        (envelope : IatpEnvelope)
        → (sealed : IatpEnvelope) × (seal (priv, own) envelope ≡ ok sealed)
          × (verify (other, receiver) sealed (some (scheme.public_key priv)) ≡ ok true)
    unfolding seal verify
    verify-seal priv own receiver other envelope =
        let (text, sig, made, decoded, accepted) =
          sign_value-ok enc scheme canonical sound priv (canonical_body isoformat envelope) in
        (record envelope { signature_b64 = some text }, rw made refl, rw decoded accepted)

    check_signature-true :
        (key : PublicKey) (body : Value) (signature : String)
        → check_signature key body (some signature) ≡ ok true
        → (sig : String) × (scheme.b64decode signature ≡ some sig)
          × (verify_value enc scheme key sig body ≡ ok true)
    check_signature-true key body signature h = elim (Option-cases (scheme.b64decode signature)) [
      | inl bad ↦ absurd (ground arith)
      | inr (sig, e) ↦ (sig, e, ground arith)
    ]

    -- An envelope that carries the signature of a sealed one and verifies under the key of its
    -- sender has the same sender, recipient, conversation, nonce, text of the time, intent and body.
    pub verify-SameMessage :
        (priv : PrivateKey) (own receiver : PublicKey) (other : PrivateKey)
        (envelope sealed received : IatpEnvelope)
        → IsFaithful enc (canonical_body isoformat envelope)
        → seal (priv, own) envelope ≡ ok sealed
        → received.signature_b64 ≡ sealed.signature_b64
        → verify (other, receiver) received (some (scheme.public_key priv)) ≡ ok true
        → SameMessage isoformat envelope received
    unfolding seal verify
    verify-SameMessage priv own receiver other envelope sealed received faithful made same
          accepted =
        let (text, signed, e) =
          >>=-returns (sign_value enc scheme priv (canonical_body isoformat envelope))
            (λ signature. ok (record envelope { signature_b64 = some signature })) made in
        let carried : received.signature_b64 ≡ some text =
          same ∙ sym (ap (λ (x : IatpEnvelope). x.signature_b64) (ok-injective e)) in
        let (sig, decoded, checked) =
          check_signature-true (scheme.public_key priv) (canonical_body isoformat received) text (
            subst
              (λ o.
                check_signature (scheme.public_key priv) (canonical_body isoformat received) o
                ≡ ok true)
              carried accepted) in
        canonical_body-SameMessage isoformat envelope received (
          sign_value-binds enc scheme canonical sound priv (canonical_body isoformat envelope)
            (canonical_body isoformat received) text sig faithful signed decoded checked)
