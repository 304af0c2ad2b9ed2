-- ===== src/Tenancy.antt =====
-- sentinel/tenancy/manager.py
use osl_agent_sentinel.Prelude.{
  ℕ, ◌≡◌, arith, String, Bool, false, Option, none, some, List, [], ◌∷◌, ◌==◌, string_eq,
  if◌then◌else◌, Outcome, ok, err, Error,
}
use osl_agent_sentinel.Prelude.Dict.{Dict, lookup, insert, values, lookup-insert}
use osl_agent_sentinel.Models.Policy.{PolicyBundle}

pub record TenantConfig : Type 0 where
  pub tenant_id : String
  pub display_name : String
  pub policy_bundle : Option PolicyBundle
  pub siem_endpoint : Option String
  pub siem_token : Option String
  pub require_signed_actions : Bool
  pub max_actions_per_minute : ℕ
  pub metadata : Dict String

-- `TenantManager._tenants`
abbrev pub TenantManager : Type 0
TenantManager = Dict TenantConfig

unfoldable pub register_tenant : TenantManager → TenantConfig → TenantManager
register_tenant m config = insert config.tenant_id config m

-- `TenantManager(seed)`: the dict is filled in the order of the list.
unfoldable pub seed_tenants : TenantManager → List TenantConfig → TenantManager
unfolding register_tenant
seed_tenants m [] = m
seed_tenants m (t ∷ ts) = seed_tenants (register_tenant m t) ts

abbrev pub default_tenant : TenantConfig
default_tenant = record {
  tenant_id = "default";
  display_name = "Default tenant";
  policy_bundle = none;
  siem_endpoint = none;
  siem_token = none;
  require_signed_actions = false;
  max_actions_per_minute = 1200;
  metadata = [];
}

-- `TenantManager.with_default()`
unfoldable pub with_default : TenantManager
unfolding seed_tenants
with_default = seed_tenants [] (default_tenant ∷ [])

abbrev pub known_tenant : Option TenantConfig → Outcome TenantConfig
known_tenant none = err Error.tenant_not_found
known_tenant (some config) = ok config

unfoldable pub get_tenant : TenantManager → String → Outcome TenantConfig
get_tenant m tenant_id = known_tenant (lookup tenant_id m)

unfoldable pub list_tenants : TenantManager → List TenantConfig
list_tenants m = values m

-- A registration is what the next lookup of that tenant returns, and no other tenant is touched.
pub get-register :
    (m : TenantManager) (config : TenantConfig) (tenant_id : String)
    → get_tenant (register_tenant m config) tenant_id
      ≡ (if config.tenant_id == tenant_id then ok config else get_tenant m tenant_id)
unfolding get_tenant register_tenant
get-register m config tenant_id = ground (arith, lookup-insert config.tenant_id tenant_id config m)
