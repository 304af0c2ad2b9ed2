-- ===== src/Signatures/Signing.antt =====
-- sentinel/identity/signing.py. The text of a time and the raw bytes of a key are parameters.
pub mod Tamper
use osl_agent_sentinel.Prelude.{
  ℕ, ◌≡◌, ◌≢◌, refl, sym, ap, ◌∙◌, arith, subst, String, Bool, true, false, Option, none, some,
  Option-cases, inl, inr, Outcome, ok, err, ok-injective, ◌>>=◌, >>=-returns, ◌==◌, string_eq,
  if◌then◌else◌,
}
use osl_agent_sentinel.Prelude.Text.{concat, take_chars}
use osl_agent_sentinel.Prelude.{[], ◌∷◌}
use osl_agent_sentinel.Models.Value.{Value, null, str, dict, Fields, eq_value}
use osl_agent_sentinel.Models.Equal.{&&-parts, eq_value-str}
use osl_agent_sentinel.Models.Action.{Action, type_value}
use osl_agent_sentinel.Models.Dump.{text_or_null, dump_context, dump_action}
use osl_agent_sentinel.Signatures.Canonical.{Encoders, IsCanonical}
use osl_agent_sentinel.Signatures.Scheme.{
  SignatureScheme, IsSound, sign_value, verify_value, sign_value-ok, sign_value-binds,
}

pub record SignedAction : Type 0 where
  pub action : Action
  pub signature_b64 : String
  pub key_id : String

-- The setter of `args`: a copy of the action with other arguments.
abbrev pub set_args : SignedAction → Fields → SignedAction
set_args signed args = record signed { action = record signed.action { arguments = args } }

module _ (enc : Encoders) (isoformat : ℕ → String) {PrivateKey PublicKey : Type 0}
    (scheme : SignatureScheme PrivateKey PublicKey) where
  -- `_fingerprint`
  unfoldable pub fingerprint : (PublicKey → String) → PublicKey → String
  fingerprint raw key = concat ("k_" ∷ take_chars 16 (enc.sha256 (raw key)) ∷ [])

  -- An `ActionSigner`: its key and its key id.
  abbrev pub ActionSigner : Type 0
  ActionSigner = PrivateKey × String

  abbrev pub or_fingerprint : String → Option String → String
  or_fingerprint print none = print
  or_fingerprint print (some key_id) = if key_id == "" then print else key_id

  -- `ActionSigner(key, key_id)`
  unfoldable pub new_signer : (PublicKey → String) → PrivateKey → Option String → ActionSigner
  unfolding fingerprint
  new_signer raw key key_id = (key, or_fingerprint (fingerprint raw (scheme.public_key key)) key_id)

  unfoldable pub sign_action : ActionSigner → Action → Outcome SignedAction
  sign_action (key, key_id) action =
      sign_value enc scheme key (dump_action isoformat action) >>= λ signature.
      ok (record { action = action; signature_b64 = signature; key_id = key_id })

  abbrev pub check_decoded : PublicKey → Action → Option String → Outcome Bool
  check_decoded key action none = ok false
  check_decoded key action (some sig) =
      verify_value enc scheme key sig (dump_action isoformat action)

  unfoldable pub verify_action : SignedAction → PublicKey → Outcome Bool
  verify_action signed public_key =
      check_decoded public_key signed.action (scheme.b64decode signed.signature_b64)
