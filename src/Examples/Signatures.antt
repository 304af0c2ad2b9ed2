-- ===== src/Examples/Signatures.antt =====
-- Signatures, bundles and the policy cache at concrete inputs.
use osl_agent_sentinel.Prelude.{
  ℕ, ◌≡◌, refl, String, true, none, some, string_eq, ok, ℕ_eq, ◌==◌, if◌then◌else◌,
}
use osl_agent_sentinel.Models.Value.{Value, null, str, no_fields, entry, eq_value}
use osl_agent_sentinel.Models.Dump.{dump_action}
use osl_agent_sentinel.Models.Action.{Action, ActionType, type_value}
use osl_agent_sentinel.Signatures.Canonical.{Encoders, canonical_bytes, sha256_hex}
use osl_agent_sentinel.Signatures.Scheme.{sign_value, verify_value}
use osl_agent_sentinel.Signatures.Iatp.{
  IatpEnvelope, canonical_body, seal, verify, SameMessage, verify-seal, verify-SameMessage,
}
use osl_agent_sentinel.Signatures.Signing.{SignedAction, sign_action, verify_action}
use osl_agent_sentinel.Signatures.Signing.Tamper.{SameAction, verify_action-SameAction}
use osl_agent_sentinel.Signatures.Cmvk.{
  MemoryReceipt, memory_value, receipt_body, receipt_of, issue, verify_receipt,
}
use osl_agent_sentinel.Signatures.Cmvk.Tamper.{verify_receipt-same}
use osl_agent_sentinel.Examples.Data.{action_of, reading}
use osl_agent_sentinel.Examples.Ideal.{
  encode, ideal, ideal-IsSound, marking, marking-IsCanonical, marking-IsFaithful,
  marking-IsFaithful_second,
}

abbrev isoformat : ℕ → String
isoformat n = "2026"

-- A text that tells the first time from the others.
abbrev day_of : ℕ → String
day_of n = if n == 0 then "2026-01-01" else "2026-01-02"

abbrev no_value : Value
no_value = null

-- An envelope, and the encoders that know its body.
abbrev envelope : IatpEnvelope
envelope = record {
  sender_did = "did:web:agent";
  recipient_did = "did:web:other";
  conversation_id = "c1";
  nonce = 3;
  issued_at = 0;
  intent = "ask";
  body = entry "q" (str "price") no_fields;
  signature_b64 = none;
}

abbrev body_bytes : Encoders
body_bytes = marking (canonical_body day_of envelope) null

abbrev sealed : IatpEnvelope
sealed = record envelope { signature_b64 = some (encode "vv") }

verify-seal_example :
    (s : IatpEnvelope) × (seal body_bytes day_of ideal (tt, tt) envelope ≡ ok s)
    × (verify body_bytes day_of ideal (tt, tt) s (some tt) ≡ ok true)
verify-seal_example =
    verify-seal body_bytes day_of ideal (marking-IsCanonical (canonical_body day_of envelope) null)
      ideal-IsSound tt tt tt tt envelope

verify-SameMessage_example : SameMessage day_of envelope sealed
unfolding seal verify canonical_body canonical_bytes eq_value sign_value verify_value
verify-SameMessage_example =
    verify-SameMessage body_bytes day_of ideal
      (marking-IsCanonical (canonical_body day_of envelope) null) ideal-IsSound tt tt tt tt envelope
      sealed sealed (marking-IsFaithful (canonical_body day_of envelope) null refl) refl refl refl

-- A signed action, received with another time.
abbrev action : Action
action = action_of ActionType.payment "did:web:agent"

abbrev action_bytes : Encoders
action_bytes = marking (dump_action isoformat action) null

abbrev signed : SignedAction
signed = record { action = action; signature_b64 = encode "vv"; key_id = "k" }

abbrev received : SignedAction
received = record signed { action = record action { created_at = 9 } }

verify_action-SameAction_example : SameAction action received.action
unfolding sign_action verify_action dump_action canonical_bytes eq_value sign_value verify_value
    type_value
verify_action-SameAction_example =
    verify_action-SameAction action_bytes isoformat ideal
      (marking-IsCanonical (dump_action isoformat action) null) ideal-IsSound tt "k" action signed
      received (marking-IsFaithful (dump_action isoformat action) null refl) refl refl refl

-- A receipt for a memory value.
abbrev memory : Value
memory = memory_value "color" (str "red") "did:web:agent"

abbrev receipt : Value
receipt = receipt_body "did:web:agent" "color" "vv"

abbrev memory_bytes : Encoders
memory_bytes = marking memory receipt

abbrev issued : MemoryReceipt
issued = receipt_of reading.stamp "did:web:agent" "color" "vv" (encode "v")

verify_receipt-same_example :
    ("did:web:agent" ≡ issued.agent_did)
    × ("color" ≡ issued.key)
    × (eq_value (str "red") (str "red") ≡ true)
unfolding issue verify_receipt canonical_bytes eq_value sign_value verify_value sha256_hex
verify_receipt-same_example =
    verify_receipt-same memory_bytes (marking-IsCanonical memory receipt) ideal ideal-IsSound tt
      reading.stamp "did:web:agent" "color" (str "red") (str "red") issued issued (λ s t h. h)
      (marking-IsFaithful memory receipt refl) (marking-IsFaithful_second memory receipt refl refl)
      refl refl refl
