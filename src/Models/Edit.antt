-- ===== src/Models/Edit.antt =====
-- Dicts of JSON values: `d.pop(k)`, `d[k] = v`, and what `==` says of a key.
use osl_agent_sentinel.Prelude.{
  ◌≡◌, arith, String, Bool, true, false, ◌&&◌, Option, none, some, Bool-cases, inl, inr, ◌==◌,
  string_eq, eq_iff, if◌then◌else◌, subst,
}
use osl_agent_sentinel.Models.Value.{
  Value, dict, Fields, no_fields, entry, get_field, eq_value, eq_fields,
}
use osl_agent_sentinel.Models.Equal.{&&-parts}

-- The rest of a dict after `pop`.
unfoldable pub remove_field : String → Fields → Fields
remove_field k no_fields = no_fields
remove_field k (entry j v fs) = if j == k then fs else entry j v (remove_field k fs)

unfoldable pub set_field : String → Value → Fields → Fields
set_field k v no_fields = entry k v no_fields
set_field k v (entry j w fs) = if j == k then entry j v fs else entry j w (set_field k v fs)

pub get_field-set_field :
    (k : String) (v : Value) (fs : Fields) → get_field k (set_field k v fs) ≡ some v
unfolding set_field get_field
get_field-set_field k v no_fields = ground (arith, eq_iff k k)
get_field-set_field k v (entry j w fs) = ground (arith, eq_iff j k, get_field-set_field k v fs)

pub remove_field-set_field :
    (k : String) (v : Value) (fs : Fields) → remove_field k (set_field k v fs) ≡ remove_field k fs
unfolding set_field remove_field
remove_field-set_field k v no_fields = ground (arith, eq_iff k k)
remove_field-set_field k v (entry j w fs) =
    ground (arith, eq_iff j k, remove_field-set_field k v fs)

abbrev pub eq_found : Value → Option Value → Bool
eq_found v none = false
eq_found v (some w) = eq_value v w

abbrev eq_both : Value → Option Value → Bool → Bool
eq_both u o rest = elim o [ none ↦ false | some w ↦ eq_value u w && rest ]

eq_both-parts :
    (u : Value) (o : Option Value) (rest : Bool)
    → eq_both u o rest ≡ true
    → (eq_found u o ≡ true) × (rest ≡ true)
eq_both-parts u none rest h = cc
eq_both-parts u (some w) rest h = &&-parts (eq_value u w) rest h

eq_fields-entry :
    (j : String) (u : Value) (fs gs : Fields)
    → eq_fields (entry j u fs) gs ≡ true
    → (eq_found u (get_field j gs) ≡ true) × (eq_fields fs gs ≡ true)
unfolding eq_fields
eq_fields-entry j u fs gs h = eq_both-parts u (get_field j gs) (eq_fields fs gs) h

-- A field of the first of two equal dicts is a field of the second, with an equal value.
pub eq_fields-get_field :
    (k : String) (v : Value) (fs gs : Fields)
    → eq_fields fs gs ≡ true
    → get_field k fs ≡ some v
    → eq_found v (get_field k gs) ≡ true
unfolding get_field
eq_fields-get_field k v no_fields gs h found = cc
eq_fields-get_field k v (entry j u fs) gs h found =
    let (here, rest) = eq_fields-entry j u fs gs h in
    elim (Bool-cases (j == k)) [
      | inl same ↦
          let first : u ≡ v = ground arith in
          let key = (eq_iff j k).0 same in
          subst (λ x. eq_found x (get_field k gs) ≡ true) first
            (subst (λ x. eq_found u (get_field x gs) ≡ true) key here)
      | inr other ↦ eq_fields-get_field k v fs gs rest (ground arith)
    ]

dict-eq_fields : (fs gs : Fields) → eq_value (dict fs) (dict gs) ≡ true → eq_fields fs gs ≡ true
unfolding eq_value
dict-eq_fields fs gs h = (&&-parts _ (eq_fields fs gs) h).1

-- The same, from the equality of the dicts.
pub eq_value-get_field :
    (k : String) (v : Value) (fs gs : Fields)
    → eq_value (dict fs) (dict gs) ≡ true
    → get_field k fs ≡ some v
    → eq_found v (get_field k gs) ≡ true
eq_value-get_field k v fs gs h found = eq_fields-get_field k v fs gs (dict-eq_fields fs gs h) found
