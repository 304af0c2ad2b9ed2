-- ===== src/Signatures/Cmvk.antt =====
-- sentinel/verification/cmvk.py
pub mod Tamper
use osl_agent_sentinel.Prelude.{
  ℕ, String, Bool, true, false, not, Option, none, some, Outcome, ok, err, ◌>>=◌, ◌==◌, string_eq,
  if◌then◌else◌,
}
use osl_agent_sentinel.Models.Value.{Value, str, dict, no_fields, entry}
use osl_agent_sentinel.Models.Decision.{Stamp}
use osl_agent_sentinel.Signatures.Canonical.{Encoders, canonical_bytes, sha256_hex}
use osl_agent_sentinel.Signatures.Scheme.{SignatureScheme, sign_value, verify_value}

pub record MemoryReceipt : Type 0 where
  pub id : String
  pub agent_did : String
  pub key : String
  pub digest_hex : String
  pub signature_b64 : String
  pub issued_at : ℕ
  pub version : ℕ

-- What is hashed, and what is signed.
abbrev pub memory_value : String → Value → String → Value
memory_value key value agent_did =
    dict (entry "key" (str key) (entry "value" value (entry "agent_did" (str agent_did) no_fields)))

abbrev pub receipt_body : String → String → String → Value
receipt_body agent_did key digest = dict (
    entry "agent_did" (str agent_did)
      (entry "key" (str key) (entry "digest" (str digest) no_fields)))

abbrev pub receipt_of : Stamp → String → String → String → String → MemoryReceipt
receipt_of stamp agent_did key digest signature = record {
  id = stamp.id;
  agent_did = agent_did;
  key = key;
  digest_hex = digest;
  signature_b64 = signature;
  issued_at = stamp.now;
  version = 1;
}

module _ (enc : Encoders) {PrivateKey PublicKey : Type 0}
    (scheme : SignatureScheme PrivateKey PublicKey) where
  -- `issue`, under the private key of the `CMVK`
  unfoldable pub issue : PrivateKey → Stamp → String → String → Value → Outcome MemoryReceipt
  issue priv stamp agent_did key value =
      sha256_hex enc (memory_value key value agent_did) >>= λ digest.
      sign_value enc scheme priv (receipt_body agent_did key digest) >>= λ signature.
      ok (receipt_of stamp agent_did key digest signature)

  -- The bytes of the body come first, then the signature is decoded.
  abbrev pub check_receipt : PublicKey → Value → Option String → Outcome Bool
  check_receipt key body none = canonical_bytes enc body >>= λ _. ok false
  check_receipt key body (some sig) = verify_value enc scheme key sig body

  -- `verify`, under the public key of the `CMVK`
  unfoldable pub verify_receipt : PublicKey → MemoryReceipt → Value → Outcome Bool
  verify_receipt own receipt value =
      sha256_hex enc (memory_value receipt.key value receipt.agent_did) >>= λ expected.
      if not (expected == receipt.digest_hex)
      then ok false
      else check_receipt own (receipt_body receipt.agent_did receipt.key receipt.digest_hex)
          (scheme.b64decode receipt.signature_b64)
