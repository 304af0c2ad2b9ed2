-- ===== src/Bootstrap/Restart.antt =====
-- What a process starts with when its policy file cannot be loaded.
use osl_agent_sentinel.Prelude.{ℕ, ◌≡◌, refl, ok, err, Error}
use osl_agent_sentinel.Models.Policy.{PolicyBundle}
use osl_agent_sentinel.Signatures.Canonical.{Encoders, IsCanonical}
use osl_agent_sentinel.Signatures.Loader.{BundleCodec}
use osl_agent_sentinel.Cache.{CacheFiles, MetaWriter}
use osl_agent_sentinel.Cache.RoundTrip.{IsJsonCodec, load_cache-save_cache}
use osl_agent_sentinel.Bootstrap.{startup_bundle}

module _ (enc : Encoders) (codec : BundleCodec) (writer : MetaWriter) (canonical : IsCanonical enc)
    (b : PolicyBundle) (law : IsJsonCodec enc codec b) where
  -- A process that loads a policy starts with it, and the next process in the same cache directory
  -- starts with that policy again if its own load raises, whatever the error and whatever the files
  -- held before.
  pub startup_bundle-restart :
      (files : CacheFiles) (now later : ℕ) (e : Error)
      → ((startup_bundle enc codec writer files now (ok b)).0 ≡ ok b)
        × ((startup_bundle enc codec writer
              (startup_bundle enc codec writer files now (ok b)).1
              later
              (err e)).0
            ≡ ok b)
  unfolding startup_bundle
  startup_bundle-restart files now later e =
      let (saved, stored, there, back) =
        load_cache-save_cache enc codec writer canonical b law files now in
      (rw stored refl, rw (stored, back) refl)
