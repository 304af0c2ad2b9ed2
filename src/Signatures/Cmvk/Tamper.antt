-- ===== src/Signatures/Cmvk/Tamper.antt =====
-- What a verified memory receipt guarantees.
use osl_agent_sentinel.Prelude.{
  ◌≡◌, refl, sym, ap, ◌∙◌, subst, String, true, false, not, Option, none, some, Bool-cases, inl,
  inr, ok, ok-injective, ◌>>=◌, >>=-returns, ◌==◌, string_eq, eq_iff, if◌then◌else◌,
}
use osl_agent_sentinel.Models.Value.{Value, str, eq_value}
use osl_agent_sentinel.Models.Equal.{&&-parts, eq_value-str}
use osl_agent_sentinel.Models.Decision.{Stamp}
use osl_agent_sentinel.Signatures.Canonical.{
  Encoders, IsCanonical, IsFaithful, canonical_bytes, sha256_hex, canonical_bytes-ok,
}
use osl_agent_sentinel.Signatures.Scheme.{
  SignatureScheme, IsSound, sign_value, verify_value, sign_value-ok, sign_value-binds,
}
use osl_agent_sentinel.Signatures.Cmvk.{
  MemoryReceipt, memory_value, receipt_body, receipt_of, issue, check_receipt, verify_receipt,
}

-- Different bytes have different digests.
abbrev pub IsCollisionFree : Encoders → Type 0
IsCollisionFree enc = (s t : String) → enc.sha256 s ≡ enc.sha256 t → s ≡ t

memory_value-same :
    (key agent_did : String) (v w : Value)
    → eq_value (memory_value key v agent_did) (memory_value key w agent_did) ≡ true
    → eq_value v w ≡ true
unfolding eq_value
memory_value-same key agent_did v w h =
    let (_, h) = &&-parts (eq_value (str key) (str key)) _ h in
    let (same, _) = &&-parts (eq_value v w) _ h in same

receipt_body-same :
    (agent key digest agent' key' digest' : String)
    → eq_value (receipt_body agent key digest) (receipt_body agent' key' digest') ≡ true
    → (agent ≡ agent') × (key ≡ key') × (digest ≡ digest')
unfolding eq_value
receipt_body-same agent key digest agent' key' digest' h =
    let (same_agent, h) = &&-parts _ _ h in
    let (same_key, h) = &&-parts _ _ h in
    let (same_digest, _) = &&-parts _ _ h in
    (
      eq_value-str agent agent' same_agent,
      eq_value-str key key' same_key,
      eq_value-str digest digest' same_digest,
    )

module _ (enc : Encoders) (canonical : IsCanonical enc) where
  sha256_hex-ok : (v : Value) → (digest : String) × (sha256_hex enc v ≡ ok digest)
  unfolding sha256_hex
  sha256_hex-ok v =
      let (bytes, e) = canonical_bytes-ok enc canonical v in (enc.sha256 bytes, rw e refl)

  sha256_hex-of :
      (v : Value) (bytes digest : String)
      → canonical_bytes enc v ≡ ok bytes
      → sha256_hex enc v ≡ ok digest
      → enc.sha256 bytes ≡ digest
  unfolding sha256_hex
  sha256_hex-of v bytes digest e h =
      ok-injective (subst (λ o. (o >>= (λ bytes. ok (enc.sha256 bytes))) ≡ ok digest) e h)

  -- Values of the same digest are equal.
  sha256_hex-binds :
      (v w : Value) (digest : String)
      → IsCollisionFree enc
      → IsFaithful enc v
      → sha256_hex enc v ≡ ok digest
      → sha256_hex enc w ≡ ok digest
      → eq_value v w ≡ true
  sha256_hex-binds v w digest free faithful hv hw =
      let (s, e) = canonical_bytes-ok enc canonical v in
      let (t, f) = canonical_bytes-ok enc canonical w in
      let same : s ≡ t =
        free s t (sha256_hex-of v s digest e hv ∙ sym (sha256_hex-of w t digest f hw)) in
      faithful w s e (rw same f)

  module _ {PrivateKey PublicKey : Type 0} (scheme : SignatureScheme PrivateKey PublicKey)
      (sound : IsSound scheme) where
    -- A receipt can be issued for every value, and verifies for it, however late and however often
    -- the key has been written since: no write revokes the receipt of an earlier one.
    pub verify-issue :
        (priv : PrivateKey) (stamp : Stamp) (agent_did key : String) (value : Value)
        → (receipt : MemoryReceipt) × (issue enc scheme priv stamp agent_did key value ≡ ok receipt)
          × (verify_receipt enc scheme (scheme.public_key priv) receipt value ≡ ok true)
    unfolding issue verify_receipt
    verify-issue priv stamp agent_did key value =
        let (digest, e) = sha256_hex-ok (memory_value key value agent_did) in
        let (text, sig, made, decoded, accepted) =
          sign_value-ok enc scheme canonical sound priv (receipt_body agent_did key digest) in
        (
          receipt_of stamp agent_did key digest text,
          rw (e, made) refl,
          rw (e, (eq_iff digest digest).1 refl, decoded) accepted,
        )

    check_receipt-true :
        (own : PublicKey) (body : Value) (decoded : Option String)
        → check_receipt enc scheme own body decoded ≡ ok true
        → (sig : String) × (decoded ≡ some sig) × (verify_value enc scheme own sig body ≡ ok true)
    check_receipt-true own body none h =
        let (_, _, refused) = >>=-returns (canonical_bytes enc body) (λ _. ok false) h in cc
    check_receipt-true own body (some sig) h = (sig, refl, h)

    -- What the checks of `verify` after the digest have passed.
    verify_receipt-true :
        (own : PublicKey) (receipt : MemoryReceipt) (value : Value)
        → verify_receipt enc scheme own receipt value ≡ ok true
        → (sig : String) × (sha256_hex enc (memory_value receipt.key value receipt.agent_did)
            ≡ ok receipt.digest_hex)
          × (scheme.b64decode receipt.signature_b64 ≡ some sig)
          × (verify_value enc scheme own sig
                (receipt_body receipt.agent_did receipt.key receipt.digest_hex)
              ≡ ok true)
    unfolding verify_receipt
    verify_receipt-true own receipt value h =
        let body = receipt_body receipt.agent_did receipt.key receipt.digest_hex in
        let rest = check_receipt enc scheme own body (scheme.b64decode receipt.signature_b64) in
        let (expected, e, h') =
          >>=-returns (sha256_hex enc (memory_value receipt.key value receipt.agent_did))
            (λ expected. if not (expected == receipt.digest_hex) then ok false else rest) h in
        elim (Bool-cases (expected == receipt.digest_hex)) [
          | inl same ↦
              let (sig, decoded, checked) =
                check_receipt-true own body (scheme.b64decode receipt.signature_b64)
                  (subst (λ b. (if not b then ok false else rest) ≡ ok true) same h') in
              (sig, e ∙ ap ok ((eq_iff expected receipt.digest_hex).0 same), decoded, checked)
          | inr other ↦
              let refused : ok false ≡ ok true =
                subst (λ b. (if not b then ok false else rest) ≡ ok true) other h' in
              cc
        ]

    -- A receipt that carries the signature of an issued one verifies only for the agent, the key and
    -- the value that it was issued for.
    pub verify_receipt-same :
        (priv : PrivateKey) (stamp : Stamp) (agent_did key : String) (value found : Value)
        (issued receipt : MemoryReceipt)
        → IsCollisionFree enc
        → IsFaithful enc (memory_value key value agent_did)
        → IsFaithful enc (receipt_body agent_did key issued.digest_hex)
        → issue enc scheme priv stamp agent_did key value ≡ ok issued
        → receipt.signature_b64 ≡ issued.signature_b64
        → verify_receipt enc scheme (scheme.public_key priv) receipt found ≡ ok true
        → (agent_did ≡ receipt.agent_did) × (key ≡ receipt.key) × (eq_value value found ≡ true)
    unfolding issue
    verify_receipt-same priv stamp agent_did key value found issued receipt free faithful
          faithful_body made carried h =
        let (digest, hashed, made') =
          >>=-returns (sha256_hex enc (memory_value key value agent_did))
            (λ digest.
              sign_value enc scheme priv (receipt_body agent_did key digest) >>= λ signature.
              ok (receipt_of stamp agent_did key digest signature))
            made in
        let (text, signs, e) =
          >>=-returns (sign_value enc scheme priv (receipt_body agent_did key digest))
            (λ signature. ok (receipt_of stamp agent_did key digest signature)) made' in
        let (sig, rehashed, decoded, checked) =
          verify_receipt-true (scheme.public_key priv) receipt found h in
        let same_text : receipt.signature_b64 ≡ text =
          carried ∙ sym (ap (λ (r : MemoryReceipt). r.signature_b64) (ok-injective e)) in
        let (agent, same_key, same_digest) =
          receipt_body-same agent_did key digest receipt.agent_did receipt.key receipt.digest_hex (
            sign_value-binds enc scheme canonical sound priv (receipt_body agent_did key digest)
              (receipt_body receipt.agent_did receipt.key receipt.digest_hex) text sig
              (subst (λ d. IsFaithful enc (receipt_body agent_did key d))
                (sym (ap (λ (r : MemoryReceipt). r.digest_hex) (ok-injective e))) faithful_body)
              signs (subst (λ t. scheme.b64decode t ≡ some sig) same_text decoded) checked) in
        let again : sha256_hex enc (memory_value key found agent_did) ≡ ok digest =
          rw (agent, same_key, same_digest) rehashed in
        (
          agent,
          same_key,
          memory_value-same key agent_did value found (
              sha256_hex-binds (memory_value key value agent_did) (memory_value key found agent_did)
                digest free faithful hashed again),
        )
