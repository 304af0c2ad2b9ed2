-- ===== src/Models/Identity.antt =====
-- sentinel/models/identity.py
use osl_agent_sentinel.Prelude.{
  ℕ, String, Bool, true, false, ◌&&◌, ◌||◌, not, Option, none, some, List, any, ◌==◌, string_eq,
  ltb,
}
use osl_agent_sentinel.Prelude.Dict.{Dict}
use osl_agent_sentinel.Score.{Score}

pub data TrustTier : Type 0 where
  observe constrained standard elevated privileged : TrustTier

-- `TrustTier.value`
unfoldable pub tier_value : TrustTier → String
tier_value observe = "observe"
tier_value constrained = "constrained"
tier_value standard = "standard"
tier_value elevated = "elevated"
tier_value privileged = "privileged"

pub record CapabilityGrant : Type 0 where
  pub name : String
  pub scope : String
  pub expires_at : Option ℕ

pub record Identity : Type 0 where
  pub did : String
  pub display_name : String
  pub tenant_id : String
  pub public_key_jwk : Dict String
  pub public_key_b64 : Option String
  pub capabilities : List CapabilityGrant
  pub tier : TrustTier
  pub trust_score : Score
  pub parent_did : Option String
  pub created_at : ℕ
  pub updated_at : ℕ
  pub revoked : Bool
  pub metadata : Dict String

abbrev pub expired : ℕ → CapabilityGrant → Bool
expired now cap = elim cap.expires_at [ none ↦ false | some t ↦ ltb t now ]

abbrev pub in_scope : Option String → CapabilityGrant → Bool
in_scope none cap = true
in_scope (some s) cap = cap.scope == "*" || cap.scope == s

-- One round of the loop in `has_capability`: whether it returns `True` at this grant.
abbrev pub grants : ℕ → String → Option String → CapabilityGrant → Bool
grants now name scope cap = cap.name == name && not (expired now cap) && in_scope scope cap

unfoldable pub has_capability : ℕ → Identity → String → Option String → Bool
has_capability now i name scope = any (grants now name scope) i.capabilities
