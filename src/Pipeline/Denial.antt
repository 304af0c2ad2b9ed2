-- ===== src/Pipeline/Denial.antt =====
-- Lookups of unknown DIDs count as failures of the identity breaker.
use osl_agent_sentinel.Prelude.{ℕ, suc, ◌+◌, ◌<◌, ◌≡◌, refl, ap, String, none, Outcome, err, Error}
use osl_agent_sentinel.Models.Action.{Action}
use osl_agent_sentinel.Models.Identity.{Identity}
use osl_agent_sentinel.Breaker.{closed, open_state, trip}
use osl_agent_sentinel.Breaker.Calls.{repeat_call, repeat_call-trips, call-open}
use osl_agent_sentinel.Identity.Resolver.{Store, get, resolve}
use osl_agent_sentinel.Pipeline.Evaluate.{PipelineState, Reading, lookup_identity}

-- The lookup of one DID, as the breaker runs it.
abbrev pub lookup_fn : Store → String → Unit {0} → Outcome Identity × Unit {0}
lookup_fn store did u = (resolve store did, u)

resolve-unknown :
    (store : Store) (did : String)
    → get store did ≡ none
    → resolve store did ≡ err Error.identity_error
unfolding resolve
resolve-unknown store did h = rw h

-- After as many lookups of an unknown DID as the threshold, the lookups of all DIDs are refused
-- until the timeout has passed, those of registered identities too.
pub unknown_dids_trip :
    {W : Type 0} (clock : ℕ → ℕ) (did : String) (n : ℕ) (s : PipelineState W) (reading : Reading)
    (action : Action)
    → get s.store did ≡ none
    → s.identity_breaker.state ≡ closed
    → s.identity_breaker.failures ≡ 0
    → s.identity_breaker.failure_threshold ≡ suc n
    → reading.now < clock n + s.identity_breaker.reset_timeout
    → let b = (repeat_call clock (lookup_fn s.store did) (suc n) (s.identity_breaker, tt)).0 in
      (lookup_identity reading action (record s { identity_breaker = b })).0
      ≡ err Error.dependency_unavailable
unfolding lookup_identity trip
unknown_dids_trip clock did n s reading action unknown c z t early =
    let tripped =
      repeat_call-trips clock (lookup_fn s.store did) Error.identity_error s.identity_breaker tt n
        (λ _. resolve-unknown s.store did unknown) c z t in
    rw tripped (
      ap (λ p. p.0)
        (call-open reading.now reading.later (lookup_fn s.store action.agent_did)
          (record s.identity_breaker {
            state = open_state;
            failures = suc n;
            opened_at = clock n;
            probes_in_flight = 0;
          })
          tt refl early))
