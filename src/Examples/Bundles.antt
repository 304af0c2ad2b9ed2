-- ===== src/Examples/Bundles.antt =====
-- Signed bundles, the loader and the policy cache at concrete inputs.
use osl_agent_sentinel.Prelude.{
  ◌≡◌, refl, String, Option, none, some, [], ◌∷◌, string_eq, ok, err, Error,
}
use osl_agent_sentinel.Prelude.Text.{ends_with}
use osl_agent_sentinel.Models.Value.{
  Value, null, str, dict, Fields, no_fields, entry, get_field, eq_value,
}
use osl_agent_sentinel.Models.Edit.{remove_field, set_field}
use osl_agent_sentinel.Models.Dump.{text_or_null}
use osl_agent_sentinel.Models.Policy.{PolicyBundle}
use osl_agent_sentinel.Signatures.Canonical.{Encoders, canonical_bytes}
use osl_agent_sentinel.Signatures.Scheme.{verify_value}
use osl_agent_sentinel.Signatures.Loader.{
  BundleCodec, load_bundle, policy_sign, loaded_bundle, reload,
}
use osl_agent_sentinel.Signatures.Loader.RoundTrip.{
  IsCodec, load_bundle-policy_sign, load_bundle-policy_resign,
}
use osl_agent_sentinel.Signatures.Loader.Reloads.{IsVerified, reloads-IsVerified}
use osl_agent_sentinel.Cache.{MetaWriter, no_files}
use osl_agent_sentinel.Cache.RoundTrip.{IsJsonCodec}
use osl_agent_sentinel.Bootstrap.{startup_bundle}
use osl_agent_sentinel.Bootstrap.Restart.{startup_bundle-restart}
use osl_agent_sentinel.Examples.Data.{bundle}
use osl_agent_sentinel.Examples.Ideal.{
  ideal, ideal-IsSound, marking, marking-IsCanonical, marking-IsFaithful,
}

-- A codec for one bundle and its signature: a file is the text of the signature.
abbrev dump : PolicyBundle → Fields
dump b = entry "version" (str b.version) (entry "signature" (text_or_null b.signature) no_fields)

abbrev text_at : Option Value → String
text_at (some (str s)) = s
text_at _ = ""

abbrev signature_at : Option Value → Option String
signature_at (some (str s)) = some s
signature_at _ = none

abbrev codec : BundleCodec
codec = record {
  safe_load = λ raw. ok (dict (entry "version" (str "1") (entry "signature" (str raw) no_fields)));
  json_loads = λ raw. ok (dict (dump bundle));
  safe_dump = λ content. text_at (get_field "signature" content);
  model_validate =
      λ content. ok (record bundle { signature = signature_at (get_field "signature" content) });
  model_dump = dump;
  suffix = λ path. path;
}

abbrev signed_bundle : PolicyBundle
signed_bundle = record bundle { signature = some "old" }

abbrev bundle_bytes : Encoders
bundle_bytes = marking (dict (dump bundle)) (dict (dump signed_bundle))

codec-IsCodec : IsCodec codec bundle
unfolding set_field get_field remove_field
codec-IsCodec = record { reads = λ s. refl; dumps = refl; dumps_unsigned = refl; validates = refl }

codec-IsCodec_signed : IsCodec codec signed_bundle
unfolding set_field get_field remove_field
codec-IsCodec_signed = record {
  reads = λ s. refl;
  dumps = refl;
  dumps_unsigned = refl;
  validates = refl;
}

load_bundle-policy_sign_example :
    (written : String) × (policy_sign bundle_bytes codec ideal ".json" "{}" tt ≡ ok written)
    × (load_bundle bundle_bytes codec ideal "out.yaml" written (some tt) ≡ ok bundle)
unfolding get_field ends_with
load_bundle-policy_sign_example =
    load_bundle-policy_sign bundle_bytes codec ideal
      (marking-IsCanonical (dict (dump bundle)) (dict (dump signed_bundle))) ideal-IsSound tt bundle
      codec-IsCodec ".json" "{}" "out.yaml" (dump bundle) refl refl refl refl

load_bundle-policy_resign_example :
    (written : String) × (policy_sign
        (marking (dict (dump signed_bundle)) null)
        codec
        ideal
        ".yaml"
        "old"
        tt
      ≡ ok written)
    × (load_bundle
          (marking (dict (dump signed_bundle)) null)
          codec
          ideal
          "out.yaml"
          written
          (some tt)
        ≡ err Error.policy_error)
unfolding get_field ends_with eq_value
load_bundle-policy_resign_example =
    load_bundle-policy_resign (marking (dict (dump signed_bundle)) null) codec ideal
      (marking-IsCanonical (dict (dump signed_bundle)) null) ideal-IsSound tt signed_bundle
      codec-IsCodec_signed ".yaml" "old" "out.yaml" (dump signed_bundle) "old" refl refl refl
      (marking-IsFaithful (dict (dump signed_bundle)) null refl) refl

-- The file held a text that is no signature first, then a good one.
reloads-IsVerified_example :
    IsVerified bundle_bytes codec ideal tt "p.yaml" ("bvv" ∷ "x" ∷ []) bundle
unfolding load_bundle reload loaded_bundle get_field remove_field ends_with eq_value canonical_bytes
    verify_value
reloads-IsVerified_example =
    reloads-IsVerified bundle_bytes codec ideal "p.yaml" tt ("bvv" ∷ "x" ∷ []) bundle refl

abbrev writer : MetaWriter
writer = record { json_dumps_indented = λ content. "{}"; isoformat = λ n. "2026" }

codec-IsJsonCodec : IsJsonCodec bundle_bytes codec bundle
unfolding get_field
codec-IsJsonCodec = record { reads = λ bytes e. refl; validates = refl }

startup_bundle-restart_example :
    ((startup_bundle bundle_bytes codec writer no_files 5 (ok bundle)).0 ≡ ok bundle)
    × ((startup_bundle bundle_bytes codec writer
          (startup_bundle bundle_bytes codec writer no_files 5 (ok bundle)).1
          9
          (err Error.policy_error)).0
        ≡ ok bundle)
startup_bundle-restart_example =
    startup_bundle-restart bundle_bytes codec writer
      (marking-IsCanonical (dict (dump bundle)) (dict (dump signed_bundle))) bundle
      codec-IsJsonCodec no_files 5 9 Error.policy_error
