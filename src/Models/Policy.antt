-- ===== src/Models/Policy.antt =====
-- sentinel/models/policy.py
use osl_agent_sentinel.Prelude.{
  ℕ, String, ◌≡◌, ◌↔◌, arith, Bool, true, false, Option, List, [], ◌∷◌, select, leb, PyEq,
  if◌then◌else◌,
}
use osl_agent_sentinel.Prelude.Dict.{Dict}
use osl_agent_sentinel.Models.Value.{Value}

pub data RuleEffect : Type 0 where
  allow deny escalate throttle : RuleEffect

abbrev pub effect_beq : RuleEffect → RuleEffect → Bool
effect_beq allow allow = true
effect_beq deny deny = true
effect_beq escalate escalate = true
effect_beq throttle throttle = true
effect_beq _ _ = false

pub effect_beq_iff : (v w : RuleEffect) → (effect_beq v w ≡ true) ↔ (v ≡ w)
effect_beq_iff v w = ground arith

instance abbrev pub effect_eq : PyEq RuleEffect
effect_eq = record { same = effect_beq; same_iff = effect_beq_iff }

pub record PolicyRule : Type 0 where
  pub id : String
  pub description : String
  pub effect : RuleEffect
  pub priority : ℕ
  pub enabled : Bool
  pub match : Dict Value
  pub tags : List String
  pub rationale : Option String
  pub owasp_ids : List String

pub record PolicyBundle : Type 0 where
  pub version : String
  pub issued_at : ℕ
  pub issuer : String
  pub bundle_id : String
  pub rules : List PolicyRule
  pub signature : Option String
  pub tenant_id : Option String

-- `sorted(..., key=lambda r: r.priority)`, which is stable: an insertion sort from the right that
-- puts a rule before those of its own priority.
unfoldable pub insert_rule : PolicyRule → List PolicyRule → List PolicyRule
insert_rule r [] = r ∷ []
insert_rule r (s ∷ rs) = if leb r.priority s.priority then r ∷ s ∷ rs else s ∷ insert_rule r rs

unfoldable pub sort_rules : List PolicyRule → List PolicyRule
unfolding insert_rule
sort_rules [] = []
sort_rules (r ∷ rs) = insert_rule r (sort_rules rs)

unfoldable pub by_priority : PolicyBundle → List PolicyRule
unfolding sort_rules
by_priority b = sort_rules (select (λ r. r.enabled) b.rules)
