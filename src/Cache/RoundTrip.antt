-- ===== src/Cache/RoundTrip.antt =====
-- What the policy cache gives back.
use osl_agent_sentinel.Prelude.{ℕ, ◌≡◌, refl, String, true, some, ok}
use osl_agent_sentinel.Models.Value.{dict}
use osl_agent_sentinel.Models.Policy.{PolicyBundle}
use osl_agent_sentinel.Signatures.Canonical.{
  Encoders, IsCanonical, canonical_bytes, canonical_bytes-ok,
}
use osl_agent_sentinel.Signatures.Loader.{BundleCodec}
use osl_agent_sentinel.Cache.{
  CacheFiles, MetaWriter, write_files, save_cache, load_cache, is_present,
}

-- `json.loads` reads the canonical bytes of the bundle's dump back, and that dump validates to the
-- bundle.
pub record IsJsonCodec (enc : Encoders) (codec : BundleCodec) (b : PolicyBundle) : Type 0 where
  pub reads :
      (bytes : String)
      → canonical_bytes enc (dict (codec.model_dump b)) ≡ ok bytes
      → codec.json_loads bytes ≡ ok (dict (codec.model_dump b))
  pub validates : codec.model_validate (codec.model_dump b) ≡ ok b

module _ (enc : Encoders) (codec : BundleCodec) (writer : MetaWriter) (canonical : IsCanonical enc)
    (b : PolicyBundle) (law : IsJsonCodec enc codec b) where
  -- Saving a bundle never fails, whatever the files held; the cache is present then, and the next
  -- load gives the bundle back.
  pub load_cache-save_cache :
      (files : CacheFiles) (now : ℕ)
      → (saved : CacheFiles) × (save_cache enc codec writer files now b ≡ ok saved)
        × (is_present enc codec writer saved ≡ true)
        × (load_cache enc codec writer saved ≡ some b)
  unfolding save_cache is_present load_cache
  load_cache-save_cache files now =
      let (bytes, e) = canonical_bytes-ok enc canonical (dict (codec.model_dump b)) in
      (
        write_files enc codec writer b now bytes,
        rw e refl,
        refl,
        rw (law.reads bytes e, law.validates) refl,
      )
