-- ===== src/PolicyEngine/Keys.antt =====
-- Keys of a match expression that the engine does not know.
use text.Mathlib.Text.{starts_with}
use osl_agent_sentinel.Prelude.{
  String, ◌≡◌, refl, arith, Bool, true, false, ◌||◌, Option, List, [], ◌∷◌, contains, ◌==◌,
  string_eq, ap, sym, subst, Bool-cases, inl, inr, eq_iff,
}
use osl_agent_sentinel.Prelude.Dict.{Dict, lookup}
use osl_agent_sentinel.Models.Value.{Value}
use osl_agent_sentinel.Models.Action.{Action}
use osl_agent_sentinel.Models.Decision.{RiskFactor}
use osl_agent_sentinel.Models.Identity.{Identity}
use osl_agent_sentinel.Runtime.{Library}
use osl_agent_sentinel.PolicyEngine.{matches}

-- The keys that `_matches` looks up.
abbrev pub looked_up : List String
looked_up =
    "action.type" ∷ "action.tool" ∷ "identity.tier" ∷ "identity.did_prefix" ∷ "risk.factor_code_any"
    ∷ "risk.factor_code_all" ∷ "risk.min_severity" ∷ "args_contains" ∷ []

or_right : (a b : Bool) → (a || b) ≡ false → b ≡ false
or_right a b h = ground arith

abbrev pub is_known : String → Bool
is_known key = contains looked_up key || starts_with key "args."

lookup-unknown :
    (key k : String) (val : Value) (m : Dict Value)
    → is_known key ≡ false
    → contains looked_up k ≡ true
    → lookup k ((key, val) ∷ m) ≡ lookup k m
unfolding lookup
lookup-unknown key k val m h c = elim (Bool-cases (key == k)) [
  | inl same ↦
      let known : contains looked_up key ≡ true =
        subst (λ x. contains looked_up x ≡ true) (sym ((eq_iff key k).0 same)) c in
      cc (ap (λ b. b || starts_with key "args.") known)
  | inr differs ↦ rw differs
]

starts_with-unknown : (key : String) → is_known key ≡ false → starts_with key "args." ≡ false
starts_with-unknown key h = or_right (contains looked_up key) (starts_with key "args.") h

-- A condition under a key that the engine does not know is dropped: the rule matches as without it.
pub matches-unknown_key :
    (py : Library) (key : String) (val : Value) (m : Dict Value) (action : Action)
    (identity : Option Identity) (factors : List RiskFactor)
    → is_known key ≡ false
    → matches py ((key, val) ∷ m) action identity factors ≡ matches py m action identity factors
unfolding matches
matches-unknown_key py key val m action identity factors h = rw (
  lookup-unknown key "action.type" val m h refl,
  lookup-unknown key "action.tool" val m h refl,
  lookup-unknown key "identity.tier" val m h refl,
  lookup-unknown key "identity.did_prefix" val m h refl,
  lookup-unknown key "risk.factor_code_any" val m h refl,
  lookup-unknown key "risk.factor_code_all" val m h refl,
  lookup-unknown key "risk.min_severity" val m h refl,
  lookup-unknown key "args_contains" val m h refl,
  starts_with-unknown key h,
)
