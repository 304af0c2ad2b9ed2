-- ===== src/Examples/Identity.antt =====
-- The identity store and the trust scorer at concrete inputs.
use osl_agent_sentinel.Prelude.{◌-◌, ◌≡◌, refl, false, some, [], err, Error, string_eq}
use osl_agent_sentinel.Prelude.Dict.{lookup}
use osl_agent_sentinel.Score.{dec4, round4}
use osl_agent_sentinel.Models.Decision.{DecisionVerdict}
use osl_agent_sentinel.Models.Identity.{Identity, standard}
use osl_agent_sentinel.Identity.Resolver.{get, resolve, resolve-ok}
use osl_agent_sentinel.Identity.TrustScorer.{default_scorer, adjust_identity}
use osl_agent_sentinel.Examples.Data.{agent, store}

resolve-ok_example : (get store "did:web:agent" ≡ some agent) × (agent.revoked ≡ false)
unfolding resolve lookup
resolve-ok_example = resolve-ok store "did:web:agent" agent refl

resolve_revoked : resolve store "did:web:gone" ≡ err Error.identity_error
unfolding resolve lookup
resolve_revoked = refl

-- A trust of 0.7412 loses 0.2 by a DENY, and moves from ELEVATED to STANDARD.
adjust_deny :
    adjust_identity default_scorer
      (record agent { trust_score = dec4 7412 })
      []
      DecisionVerdict.deny
    ≡ record agent { trust_score = dec4 5412; tier = standard }
unfolding adjust_identity round4
adjust_deny = refl

abbrev nearly_elevated : Identity
nearly_elevated = record agent { trust_score = dec4 7000 - 1 }
