-- ===== src/Client.antt =====
-- sentinel/client.py. The HTTP client is a parameter: a request ends in a response whose status is
-- fine, or raises.
use osl_agent_sentinel.Prelude.{
  ◌≡◌, refl, arith, String, Bool, true, Option, none, some, [], ◌∷◌, ◌==◌, inl, inr, if◌then◌else◌,
  Outcome, ok, err, Error, Outcome-cases,
}
use osl_agent_sentinel.Prelude.Text.{concat}
use osl_agent_sentinel.Models.Action.{Action}
use osl_agent_sentinel.Models.Decision.{DecisionVerdict, verdict_eq, Stamp, Decision, deny_decision}
use osl_agent_sentinel.Runtime.{Library}

pub record RemoteConfig : Type 0 where
  pub base_url : String
  pub token : String
  pub tenant_id : String
  pub fail_closed : Bool

-- Either embedded or remote; an interceptor goes before a remote. `W` is the state behind it: of the
-- interceptor, or of the server and the network.
pub data Sentinel (W Response : Type 0) : Type 0 where
  embedded : (Action → W → Outcome Decision × W) → Sentinel W Response
  remote : RemoteConfig → (Action → W → Outcome Response × W) → Sentinel W Response

-- `Sentinel(interceptor=..., remote=...)`, with the client that it makes for a remote.
abbrev pub new_sentinel :
    {W Response : Type 0}
    → Option (Action → W → Outcome Decision × W)
    → Option (RemoteConfig × (Action → W → Outcome Response × W))
    → Outcome (Sentinel W Response)
new_sentinel (some interceptor) config = ok (embedded interceptor)
new_sentinel none (some (config, post)) = ok (remote config post)
new_sentinel none none = err Error.sentinel_error

abbrev pub unreachable : Library → Stamp → Action → Error → Decision
unfolding deny_decision
unreachable py stamp action e =
    deny_decision stamp (concat ("sentinel_unreachable: " ∷ py.str_of_error e ∷ []))
      (some action.id) "" true

abbrev pub is_allowed : Outcome Decision → Outcome Bool
is_allowed (ok d) = ok (d.verdict == DecisionVerdict.allow)
is_allowed (err e) = err e

module _ {Response : Type 0} (py : Library) (model_validate : Response → Outcome Decision) where
  -- What `evaluate` makes of the response, or of what `post` or `raise_for_status` raised.
  abbrev pub on_response : RemoteConfig → Stamp → Action → Outcome Response → Outcome Decision
  on_response config stamp action (ok response) = model_validate response
  on_response config stamp action (err e) =
      if config.fail_closed then ok (unreachable py stamp action e) else err e

  on_response-allowed :
      (config : RemoteConfig) (stamp : Stamp) (action : Action) (o : Outcome Response)
      → is_allowed (on_response config stamp action o) ≡ ok true
      → (response : Response) × (d : Decision) × (o ≡ ok response)
        × (model_validate response ≡ ok d)
        × (d.verdict ≡ DecisionVerdict.allow)
  unfolding unreachable
  on_response-allowed config stamp action (ok response) h =
      elim (Outcome-cases (model_validate response)) [
        | inl (d, e) ↦ (response, d, refl, e, ground arith)
        | inr (x, e) ↦ absurd (ground arith)
      ]
  on_response-allowed config stamp action (err e) h = absurd (ground arith)

module _ {W Response : Type 0} (py : Library) (model_validate : Response → Outcome Decision) where
  unfoldable pub client_evaluate : Sentinel W Response → Stamp → Action → W → Outcome Decision × W
  client_evaluate (embedded evaluate) stamp action w = evaluate action w
  client_evaluate (remote config post) stamp action w =
      let (answer, w') = post action w in
      (on_response py model_validate config stamp action answer, w')

  -- `allow`
  unfoldable pub allow_action : Sentinel W Response → Stamp → Action → W → Outcome Bool × W
  unfolding client_evaluate
  allow_action s stamp action w =
      let (d, w') = client_evaluate s stamp action w in (is_allowed d, w')

  -- A remote client lets an action pass only on a response of the server that holds an ALLOW; what
  -- the network or an error status raises never lets one pass, fail-closed or not.
  pub allow_action-true :
      (config : RemoteConfig) (post : Action → W → Outcome Response × W) (stamp : Stamp)
      (action : Action) (w : W)
      → (allow_action (remote config post) stamp action w).0 ≡ ok true
      → (response : Response) × (d : Decision) × ((post action w).0 ≡ ok response)
        × (model_validate response ≡ ok d)
        × (d.verdict ≡ DecisionVerdict.allow)
  unfolding allow_action
  allow_action-true config post stamp action w h =
      on_response-allowed py model_validate config stamp action (post action w).0 h
