-- ===== src/Signatures/Loader.antt =====
-- sentinel/policy_pac/loader.py, and `policy sign` of sentinel/cli.py.
pub mod RoundTrip
pub mod Reloads
use osl_agent_sentinel.Prelude.{
  ◌||◌, ◌==◌, string_eq, String, Bool, true, false, not, Option, none, some, Outcome, ok, err,
  ◌>>=◌, Error, if◌then◌else◌,
}
use osl_agent_sentinel.Prelude.Text.{ends_with}
use osl_agent_sentinel.Models.Value.{Value, null, str, dict, Fields, get_field, is_truthy}
use osl_agent_sentinel.Models.Edit.{remove_field, set_field}
use osl_agent_sentinel.Models.Policy.{PolicyBundle}
use osl_agent_sentinel.Signatures.Canonical.{Encoders}
use osl_agent_sentinel.Signatures.Scheme.{SignatureScheme, sign_value, verify_value}

-- `yaml.safe_load`, `json.loads` and `yaml.safe_dump`, pydantic's `PolicyBundle.model_validate` and
-- `model_dump(mode="json")`, and the `suffix` of a `Path`.
pub record BundleCodec : Type 0 where
  pub safe_load : String → Outcome Value
  pub json_loads : String → Outcome Value
  pub safe_dump : Fields → String
  pub model_validate : Fields → Outcome PolicyBundle
  pub model_dump : PolicyBundle → Fields
  pub suffix : String → String

-- `str(path).endswith((".yaml", ".yml"))`
abbrev pub is_yaml : String → Bool
is_yaml path = ends_with path ".yaml" || ends_with path ".yml"

-- `path.suffix in {".yaml", ".yml"}`
abbrev pub has_yaml_suffix : BundleCodec → String → Bool
has_yaml_suffix codec path = codec.suffix path == ".yaml" || codec.suffix path == ".yml"

abbrev pub parse_text : BundleCodec → Bool → String → Outcome Value
parse_text codec yaml raw = if yaml then codec.safe_load raw else codec.json_loads raw

abbrev pub as_mapping : Value → Outcome Fields
as_mapping (dict fields) = ok fields
as_mapping _ = err Error.policy_error

-- What is no dict fails the validation of a model.
abbrev pub as_model_input : Value → Outcome Fields
as_model_input (dict fields) = ok fields
as_model_input _ = err Error.raised

module _ (enc : Encoders) (codec : BundleCodec) {PrivateKey PublicKey : Type 0}
    (scheme : SignatureScheme PrivateKey PublicKey) where
  -- `base64.b64decode` of the popped value.
  abbrev pub decode_signature : Value → Outcome String
  decode_signature (str text) = elim (scheme.b64decode text) [
    | none ↦ err Error.policy_error
    | some sig ↦ ok sig
  ]
  decode_signature _ = err Error.policy_error

  abbrev pub or_null : Option Value → Value
  or_null none = null
  or_null (some v) = v

  abbrev pub check_bundle : PublicKey → Value → PolicyBundle → Outcome PolicyBundle
  check_bundle key signature bundle =
      if not (is_truthy signature)
      then err Error.policy_error
      else decode_signature signature >>= λ sig.
          verify_value enc scheme key sig (dict (codec.model_dump bundle)) >>= λ valid.
          if valid then ok bundle else err Error.policy_error

  abbrev pub check_for : Option PublicKey → Value → PolicyBundle → Outcome PolicyBundle
  check_for none signature bundle = ok bundle
  check_for (some key) signature bundle = check_bundle key signature bundle

  -- `load_bundle_from_path`, of the text `raw` at the path.
  unfoldable pub load_bundle : String → String → Option PublicKey → Outcome PolicyBundle
  load_bundle path raw public_key = parse_text codec (is_yaml path) raw >>= λ content.
      as_mapping content >>= λ fields.
      codec.model_validate (remove_field "signature" fields) >>= λ bundle.
      check_for public_key (or_null (get_field "signature" fields)) bundle

  -- The text that `policy sign` writes for the text at the path.
  unfoldable pub policy_sign : String → String → PrivateKey → Outcome String
  policy_sign path raw key = parse_text codec (has_yaml_suffix codec path) raw >>= λ content.
      as_model_input content >>= λ fields. codec.model_validate fields >>= λ bundle.
      sign_value enc scheme key (dict (codec.model_dump bundle)) >>= λ signature.
      ok (codec.safe_dump (set_field "signature" (str signature) (codec.model_dump bundle)))

  -- The fields of a `PolicyLoader`.
  pub record PolicyLoader : Type 0 where
    pub path : String
    pub public_key : Option PublicKey
    pub bundle : Option PolicyBundle

  -- the property `bundle`
  unfoldable pub loaded_bundle : PolicyLoader → Outcome PolicyBundle
  loaded_bundle l = elim l.bundle [ none ↦ err Error.policy_error | some b ↦ ok b ]

  abbrev pub keep : PolicyLoader → Outcome PolicyBundle → Outcome PolicyBundle × PolicyLoader
  keep l (ok new_bundle) = (ok new_bundle, record l { bundle = some new_bundle })
  keep l (err e) = (err e, l)

  -- `reload`, and its alias `load`, where the file holds the text `raw`.
  unfoldable pub reload : PolicyLoader → String → Outcome PolicyBundle × PolicyLoader
  unfolding load_bundle
  reload l raw = keep l (load_bundle l.path raw l.public_key)
