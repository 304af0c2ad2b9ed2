-- ===== src/Cache.antt =====
-- sentinel/core/cache.py: the two files of the policy cache.
pub mod RoundTrip
use osl_agent_sentinel.Prelude.{
  ℕ, String, Bool, true, false, Option, none, some, Outcome, ok, err, ◌>>=◌,
}
use osl_agent_sentinel.Models.Value.{Value, str, dict, Fields, no_fields, entry}
use osl_agent_sentinel.Models.Policy.{PolicyBundle}
use osl_agent_sentinel.Signatures.Canonical.{Encoders, canonical_bytes}
use osl_agent_sentinel.Signatures.Loader.{BundleCodec, as_model_input}

-- The texts of `policy_bundle.json` and `policy_meta.json`, if they exist.
pub record CacheFiles : Type 0 where
  pub bundle_file : Option String
  pub meta_file : Option String

-- `LocalPolicyCache(directory)` in an empty directory
abbrev pub no_files : CacheFiles
no_files = record { bundle_file = none; meta_file = none }

-- `json.dumps(_, indent=2)` and the text of a time.
pub record MetaWriter : Type 0 where
  pub json_dumps_indented : Fields → String
  pub isoformat : ℕ → String

module _ (enc : Encoders) (codec : BundleCodec) (writer : MetaWriter) where
  abbrev pub cache_meta : PolicyBundle → ℕ → Fields
  cache_meta bundle now =
      entry "version" (str bundle.version) (
        entry "issuer" (str bundle.issuer)
          (entry "saved_at" (str (writer.isoformat now)) no_fields))

  abbrev pub write_files : PolicyBundle → ℕ → String → CacheFiles
  write_files bundle now bytes = record {
    bundle_file = some bytes;
    meta_file = some (writer.json_dumps_indented (cache_meta bundle now));
  }

  -- `save` at the time `now`; when the encoding raises, nothing is written.
  unfoldable pub save_cache : CacheFiles → ℕ → PolicyBundle → Outcome CacheFiles
  save_cache files now bundle = canonical_bytes enc (dict (codec.model_dump bundle)) >>= λ bytes.
      ok (write_files bundle now bytes)

  -- Any exception of the parsing or the validation counts as no bundle.
  abbrev pub or_no_bundle : Outcome PolicyBundle → Option PolicyBundle
  or_no_bundle (ok bundle) = some bundle
  or_no_bundle (err e) = none

  abbrev pub parse_cached : String → Option PolicyBundle
  parse_cached text =
      or_no_bundle
        (codec.json_loads text >>= λ content. as_model_input content >>= codec.model_validate)

  -- `load`
  unfoldable pub load_cache : CacheFiles → Option PolicyBundle
  load_cache files = elim files.bundle_file [ none ↦ none | some text ↦ parse_cached text ]

  -- `is_present`
  unfoldable pub is_present : CacheFiles → Bool
  is_present files = elim files.bundle_file [ none ↦ false | some _ ↦ true ]
