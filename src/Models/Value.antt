-- ===== src/Models/Value.antt =====
-- A value of Python's JSON types, as it stands in `Action.arguments` and in a rule's `match`.
-- A float is a whole number of units of 10 ^ -16 (see Score).
use osl_agent_sentinel.Prelude.{
  ℕ, suc, ◌+◌, ◌-◌, ◌*◌, String, Bool, true, false, ◌&&◌, not, Option, none, some, if◌then◌else◌,
  ◌==◌, ℕ_eq, string_eq,
}
use osl_agent_sentinel.Score.{one}

-- `negsuc n` is -(n + 1).
pub data ℤ : Type 0 where
  pos : ℕ → ℤ
  negsuc : ℕ → ℤ

pub eq_ℤ : ℤ → ℤ → Bool
eq_ℤ (pos a) (pos b) = a == b
eq_ℤ (negsuc a) (negsuc b) = a == b
eq_ℤ _ _ = false

mutual
  -- the entries of a dict, whose keys are texts
  pub data Fields : Type 0 where
    no_fields : Fields
    entry : String → Value → Fields → Fields

  pub data Value : Type 0 where
    null : Value
    bool : Bool → Value
    int float : ℤ → Value
    str : String → Value
    dict : Fields → Value
    list : Items → Value

  -- the items of a list
  pub data Items : Type 0 where
    no_items : Items
    item : Value → Items → Items

scale : ℤ → ℤ
scale (pos n) = pos (n * one)
scale (negsuc n) = negsuc (n * one + (one - 1))

-- The number that a value stands for, in units: booleans are 0 and 1.
pub numeric : Value → Option ℤ
numeric (bool true) = some (pos one)
numeric (bool false) = some (pos 0)
numeric (int n) = some (scale n)
numeric (float x) = some x
numeric _ = none

unfoldable pub get_field : String → Fields → Option Value
get_field k no_fields = none
get_field k (entry j v fs) = if j == k then some v else get_field k fs

size_fields : Fields → ℕ
size_fields no_fields = 0
size_fields (entry _ _ fs) = suc (size_fields fs)

eq_numeric : Option ℤ → Option ℤ → Bool
eq_numeric (some a) (some b) = eq_ℤ a b
eq_numeric _ _ = false

-- `==`: numbers by value, lists by their items, dicts by their keys in any order.
unfoldable mutual
  unfolding eq_ℤ numeric get_field scale eq_numeric size_fields

  pub eq_value : Value → Value → Bool
  eq_value null null = true
  eq_value (str s) (str t) = s == t
  eq_value (list xs) (list ys) = eq_items xs ys
  eq_value (dict fs) (dict gs) = size_fields fs == size_fields gs && eq_fields fs gs
  eq_value v w = eq_numeric (numeric v) (numeric w)

  pub eq_items : Items → Items → Bool
  eq_items no_items no_items = true
  eq_items (item v xs) (item w ys) = eq_value v w && eq_items xs ys
  eq_items _ _ = false

  -- every field of the first is a field of the second
  pub eq_fields : Fields → Fields → Bool
  eq_fields no_fields gs = true
  eq_fields (entry k v fs) gs = elim (get_field k gs) [
    | none ↦ false
    | some w ↦ eq_value v w && eq_fields fs gs
  ]

-- Whether a value counts as true.
abbrev pub is_truthy : Value → Bool
is_truthy null = false
is_truthy (bool b) = b
is_truthy (int n) = not (eq_ℤ n (pos 0))
is_truthy (float x) = not (eq_ℤ x (pos 0))
is_truthy (str s) = not (s == "")
is_truthy (dict no_fields) = false
is_truthy (list no_items) = false
is_truthy _ = true
