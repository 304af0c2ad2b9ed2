-- ===== src/Signatures/Signing/Tamper.antt =====
-- What a verified signature of an action guarantees, and what invalidates it.
use osl_agent_sentinel.Prelude.{
  ℕ, ◌≡◌, ◌≢◌, refl, sym, ap, ◌∙◌, arith, subst, String, true, Option, none, some, ok, ok-injective,
  >>=-returns,
}
use osl_agent_sentinel.Models.Value.{dict, eq_value}
use osl_agent_sentinel.Models.Equal.{&&-parts, eq_value-str}
use osl_agent_sentinel.Models.Action.{Action, type_value}
use osl_agent_sentinel.Models.Dump.{text_or_null, dump_context, dump_action}
use osl_agent_sentinel.Interceptor.{stamped}
use osl_agent_sentinel.Signatures.Canonical.{Encoders, IsCanonical, IsFaithful}
use osl_agent_sentinel.Signatures.Scheme.{
  SignatureScheme, IsSound, sign_value, verify_value, sign_value-ok, sign_value-binds,
}
use osl_agent_sentinel.Signatures.Signing.{SignedAction, sign_action, check_decoded, verify_action}

-- The parts of an action that a signature binds, as JSON values.
abbrev pub SameAction : Action → Action → Type 0
SameAction a b =
    (a.id ≡ b.id)
    × (type_value a.type ≡ type_value b.type)
    × (a.agent_did ≡ b.agent_did)
    × (a.tenant_id ≡ b.tenant_id)
    × (eq_value (text_or_null a.tool) (text_or_null b.tool) ≡ true)
    × (eq_value (dict a.arguments) (dict b.arguments) ≡ true)
    × (eq_value (text_or_null a.payload_digest) (text_or_null b.payload_digest) ≡ true)
    × (eq_value (text_or_null a.intent) (text_or_null b.intent) ≡ true)
    × (eq_value (dump_context a.context) (dump_context b.context) ≡ true)

dump_action-SameAction :
    (isoformat : ℕ → String) (a b : Action)
    → eq_value (dump_action isoformat a) (dump_action isoformat b) ≡ true
    → SameAction a b
unfolding dump_action eq_value
dump_action-SameAction isoformat a b h =
    let (id, h) = &&-parts _ _ h in
    let (type, h) = &&-parts _ _ h in
    let (agent, h) = &&-parts _ _ h in
    let (tenant, h) = &&-parts _ _ h in
    let (tool, h) = &&-parts (eq_value (text_or_null a.tool) (text_or_null b.tool)) _ h in
    let (args, h) = &&-parts (eq_value (dict a.arguments) (dict b.arguments)) _ h in
    let (digest, h) =
      &&-parts (eq_value (text_or_null a.payload_digest) (text_or_null b.payload_digest)) _ h in
    let (intent, h) = &&-parts (eq_value (text_or_null a.intent) (text_or_null b.intent)) _ h in
    let (context, h) = &&-parts (eq_value (dump_context a.context) (dump_context b.context)) _ h in
    (
      eq_value-str a.id b.id id,
      eq_value-str (type_value a.type) (type_value b.type) type,
      eq_value-str a.agent_did b.agent_did agent,
      eq_value-str a.tenant_id b.tenant_id tenant,
      tool,
      args,
      digest,
      intent,
      context,
    )

digest_changed : (d : String) → eq_value (text_or_null none) (text_or_null (some d)) ≡ true → ⊥
unfolding eq_value
digest_changed d h = cc

stamped-digest :
    (sha256_hex : Action → String) (a : Action)
    → a.payload_digest ≡ none
    → (stamped sha256_hex a).payload_digest ≡ some (sha256_hex a)
unfolding stamped
stamped-digest sha256_hex a h = ground arith

module _ (enc : Encoders) (isoformat : ℕ → String) {PrivateKey PublicKey : Type 0}
    (scheme : SignatureScheme PrivateKey PublicKey) (canonical : IsCanonical enc)
    (sound : IsSound scheme) where
  -- Signing never fails, and the signed action verifies under the public key of the signer.
  pub verify-sign_action :
      (key : PrivateKey) (key_id : String) (action : Action)
      → (signed : SignedAction) × (sign_action enc isoformat scheme (key, key_id) action
          ≡ ok signed)
        × (signed.action ≡ action)
        × (verify_action enc isoformat scheme signed (scheme.public_key key) ≡ ok true)
  unfolding sign_action verify_action
  verify-sign_action key key_id action =
      let (text, sig, made, decoded, accepted) =
        sign_value-ok enc scheme canonical sound key (dump_action isoformat action) in
      (
        record { action = action; signature_b64 = text; key_id = key_id },
        rw made refl,
        refl,
        rw decoded accepted,
      )

  check_decoded-true :
      (key : PublicKey) (action : Action) (decoded : Option String)
      → check_decoded enc isoformat scheme key action decoded ≡ ok true
      → (sig : String) × (decoded ≡ some sig)
        × (verify_value enc scheme key sig (dump_action isoformat action) ≡ ok true)
  check_decoded-true key action none h = absurd (ground arith)
  check_decoded-true key action (some sig) h = (sig, refl, h)

  -- An action that verifies with a signature that was made for another one agrees with it in every
  -- part, the time excepted: no change of it, such as one of its arguments, goes unnoticed.
  pub verify_action-SameAction :
      (key : PrivateKey) (key_id : String) (action : Action) (signed received : SignedAction)
      → IsFaithful enc (dump_action isoformat action)
      → sign_action enc isoformat scheme (key, key_id) action ≡ ok signed
      → received.signature_b64 ≡ signed.signature_b64
      → verify_action enc isoformat scheme received (scheme.public_key key) ≡ ok true
      → SameAction action received.action
  unfolding sign_action verify_action
  verify_action-SameAction key key_id action signed received faithful made same accepted =
      let (text, signs, e) =
        >>=-returns (sign_value enc scheme key (dump_action isoformat action))
          (λ signature.
            let s : SignedAction = record {
              action = action;
              signature_b64 = signature;
              key_id = key_id;
            } in
            ok s)
          made in
      let carried : received.signature_b64 ≡ text =
        same ∙ sym (ap (λ (x : SignedAction). x.signature_b64) (ok-injective e)) in
      let (sig, decoded, checked) =
        check_decoded-true (scheme.public_key key) received.action
          (scheme.b64decode received.signature_b64) accepted in
      dump_action-SameAction isoformat action received.action (
        sign_value-binds enc scheme canonical sound key (dump_action isoformat action)
          (dump_action isoformat received.action) text sig faithful signs
          (subst (λ t. scheme.b64decode t ≡ some sig) carried decoded) checked)

  -- The signature covers the digest: an action that is signed without one does not verify any more
  -- once the interceptor has stamped it.
  pub verify_action-stamped :
      (key : PrivateKey) (key_id : String) (action : Action) (signed : SignedAction)
      (sha256_hex : Action → String)
      → action.payload_digest ≡ none
      → IsFaithful enc (dump_action isoformat action)
      → sign_action enc isoformat scheme (key, key_id) action ≡ ok signed
      → verify_action enc isoformat scheme
          (record signed { action = stamped sha256_hex action })
          (scheme.public_key key)
        ≢ ok true
  verify_action-stamped key key_id action signed sha256_hex unset faithful made accepted =
      let received : SignedAction = record signed { action = stamped sha256_hex action } in
      let (_, _, _, _, _, _, digest, _, _) =
        verify_action-SameAction key key_id action signed received faithful made refl accepted in
      digest_changed (sha256_hex action) (
        subst (λ d. eq_value (text_or_null none) (text_or_null d) ≡ true)
          (stamped-digest sha256_hex action unset)
          (subst
            (λ d. eq_value (text_or_null d) (text_or_null received.action.payload_digest) ≡ true)
            unset digest))
