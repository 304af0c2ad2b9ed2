-- ===== src/PolicyEngine.antt =====
-- sentinel/core/policy_engine.py. A match expression is a dict of JSON values; a check that meets
-- a value of the wrong type raises, as Python does.
pub mod Order
pub mod Keys
use text.Mathlib.Text.{starts_with}
use osl_agent_sentinel.Prelude.{
  ℕ, max, String, Bool, true, false, not, Option, none, some, List, [], ◌∷◌, any, all, contains,
  ltb, ◌==◌, string_eq, if◌then◌else◌, Outcome, ok, err, ◌>>=◌, Error,
}
use osl_agent_sentinel.Prelude.Text.{is_in, drop_chars, split}
use osl_agent_sentinel.Prelude.Dict.{Dict, lookup}
use osl_agent_sentinel.Score.{Score}
use osl_agent_sentinel.Models.Value.{
  ℤ, pos, negsuc, Value, null, bool, int, float, str, list, dict, Items, no_items, item, Fields,
  get_field, eq_value, numeric,
}
use osl_agent_sentinel.Models.Action.{Action, type_value}
use osl_agent_sentinel.Models.Decision.{RiskFactor}
use osl_agent_sentinel.Models.Identity.{Identity, tier_value}
use osl_agent_sentinel.Models.Policy.{RuleEffect, PolicyRule, PolicyBundle, by_priority}
use osl_agent_sentinel.Runtime.{Library, Float}

pub record RuleMatch : Type 0 where
  pub rule : PolicyRule
  pub effect : RuleEffect

-- `_ensure_list`
abbrev pub ensure_list : Value → Items
ensure_list (list xs) = xs
ensure_list v = item v no_items

-- `v in xs`
abbrev pub in_items : Value → Items → Bool
in_items v no_items = false
in_items v (item x xs) = if eq_value v x then true else in_items v xs

abbrev pub unless_null : Value → Outcome Bool → Outcome Bool
unless_null null checked = ok true
unless_null _ checked = checked

abbrev pub on_value : Option Value → (Value → Outcome Bool) → Outcome Bool
on_value none check = ok true
on_value (some v) check = unless_null v (check v)

-- `if (val := m.get(key)) is not None and ...`: the check of one key, which `null` skips.
abbrev pub with_key : String → Dict Value → (Value → Outcome Bool) → Outcome Bool
with_key key m check = on_value (lookup key m) check

infixr 30 ◌then_check◌
-- The next check, unless this one returned `False` or raised.
abbrev pub ◌then_check◌ : Outcome Bool → Outcome Bool → Outcome Bool
a then_check b = a >>= λ passed. if passed then b else ok false

abbrev pub check_type : Action → Value → Outcome Bool
check_type action val = ok (eq_value (str (type_value action.type)) val)

abbrev pub tool_as_value : Option String → Value
tool_as_value none = null
tool_as_value (some t) = str t

abbrev pub check_tool : Action → Value → Outcome Bool
check_tool action (list xs) = ok (in_items (tool_as_value action.tool) xs)
check_tool action val = ok (eq_value (tool_as_value action.tool) val)

abbrev pub check_tier : Option Identity → Value → Outcome Bool
check_tier none val = ok false
check_tier (some i) val = ok (eq_value (str (tier_value i.tier)) val)

abbrev pub to_str : Library → Value → String
to_str py (str s) = s
to_str py v = py.str_of v

abbrev pub check_did_prefix : Library → Action → Value → Outcome Bool
check_did_prefix py action val = ok (starts_with action.agent_did (to_str py val))

-- `set(items)`: a list or a dict cannot be hashed. A member that is no text equals no code.
abbrev pub as_set : Items → Outcome (List (Option String))
as_set no_items = ok []
as_set (item v xs) = as_set xs >>= λ rest. elim v [
  | str s ↦ ok (some s ∷ rest)
  | list _ ↦ err Error.type_error
  | dict _ ↦ err Error.type_error
  | _ ↦ ok (none ∷ rest)
]

abbrev pub is_code : List RiskFactor → Option String → Bool
is_code factors none = false
is_code factors (some code) = any (λ f. f.code == code) factors

abbrev pub check_code_any : List RiskFactor → Value → Outcome Bool
check_code_any factors val =
    as_set (ensure_list val) >>= λ wanted. ok (any (is_code factors) wanted)

abbrev pub check_code_all : List RiskFactor → Value → Outcome Bool
check_code_all factors val =
    as_set (ensure_list val) >>= λ wanted. ok (all (is_code factors) wanted)

-- `float(val)`; `none` is a `TypeError` or a `ValueError`, which the engine catches.
abbrev pub to_float : Library → Value → Option Float
to_float py (str s) = py.parse_float s
to_float py v = elim (numeric v) [ none ↦ none | some n ↦ some (Float.finite n) ]

abbrev pub top_severity : List RiskFactor → Score
top_severity [] = 0
top_severity (f ∷ fs) = max f.severity (top_severity fs)

abbrev pub below : Score → Float → Bool
below top (Float.finite (pos t)) = ltb top t
below top (Float.finite (negsuc _)) = false
below top Float.infinity = true
below top _ = false

abbrev pub check_min_severity : Library → List RiskFactor → Value → Outcome Bool
check_min_severity py factors val = elim (to_float py val) [
  | none ↦ ok false
  | some threshold ↦ ok (not (below (top_severity factors) threshold))
]

-- `key.removeprefix("args.").split(".")`, for a key with that prefix.
unfoldable pub arg_path : String → List String
unfolding drop_chars split
arg_path key = split b'.' (drop_chars 5 key)

-- The value at a path of keys, if every step is a dict that has the key.
unfoldable pub deep_get : Value → List String → Option Value
deep_get cur [] = some cur
deep_get (dict fs) (part ∷ path) = elim (get_field part fs) [
  | none ↦ none
  | some v ↦ deep_get v path
]
deep_get _ (part ∷ path) = none

-- `_deep_eq`
unfoldable pub deep_eq : Fields → List String → Value → Bool
unfolding deep_get
deep_eq fs path expected = elim (deep_get (dict fs) path) [
  | none ↦ false
  | some v ↦ eq_value v expected
]

-- The loop over the keys that begin with `args.`.
abbrev pub check_args : Action → Dict Value → Bool
check_args action [] = true
check_args action ((key, expected) ∷ m) =
    let rest = check_args action m in
    if starts_with key "args."
    then (if deep_eq action.arguments (arg_path key) expected then rest else false)
    else rest

-- `any(needle in haystack for needle in items)`, which raises at a needle that is no text.
abbrev pub any_needle : String → Items → Outcome Bool
any_needle haystack no_items = ok false
any_needle haystack (item v xs) =
    let rest = any_needle haystack xs in
    elim v [ str s ↦ if is_in s haystack then ok true else rest | _ ↦ err Error.type_error ]

abbrev pub check_contains : Library → Action → Value → Outcome Bool
check_contains py action val = any_needle (py.dumps action.arguments) (ensure_list val)

-- `_matches`, over the rule's match expression. Of an empty one every check passes.
unfoldable pub matches :
    Library → Dict Value → Action → Option Identity → List RiskFactor → Outcome Bool
matches py m action identity factors =
    with_key "action.type" m (check_type action)
    then_check with_key "action.tool" m (check_tool action)
    then_check with_key "identity.tier" m (check_tier identity)
    then_check with_key "identity.did_prefix" m (check_did_prefix py action)
    then_check with_key "risk.factor_code_any" m (check_code_any factors)
    then_check with_key "risk.factor_code_all" m (check_code_all factors)
    then_check with_key "risk.min_severity" m (check_min_severity py factors)
    then_check ok (check_args action m)
    then_check with_key "args_contains" m (check_contains py action)

-- The loop of `evaluate` over the rules in order.
unfoldable pub evaluate_rules :
    Library
    → List PolicyRule
    → Action
    → Option Identity
    → List RiskFactor
    → Outcome (List RuleMatch)
evaluate_rules py [] action identity factors = ok []
evaluate_rules py (r ∷ rs) action identity factors =
    matches py r.match action identity factors >>= λ matched.
    evaluate_rules py rs action identity factors >>= λ rest.
    ok (if matched then record { rule = r; effect = r.effect } ∷ rest else rest)

-- `PolicyEngine.evaluate`
unfoldable pub evaluate :
    Library → PolicyBundle → Action → Option Identity → List RiskFactor → Outcome (List RuleMatch)
unfolding evaluate_rules
evaluate py bundle action identity factors =
    evaluate_rules py (by_priority bundle) action identity factors
