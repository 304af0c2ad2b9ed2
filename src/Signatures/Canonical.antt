-- ===== src/Signatures/Canonical.antt =====
-- sentinel/utils/canonical.py. orjson and json are parameters; bytes are texts.
use osl_agent_sentinel.Prelude.{
  ◌^◌, ◌≡◌, refl, String, Bool, true, false, ◌||◌, Option, none, some, leb, Outcome, ok, err, Error,
  if◌then◌else◌, ◌>>=◌, Bool-cases, Option-cases, inl, inr,
}
use osl_agent_sentinel.Models.Value.{
  ℤ, pos, negsuc, Value, null, bool, int, float, str, dict, list, Items, no_items, item, Fields,
  no_fields, entry, eq_value,
}

-- `orjson.dumps` with the three options, where `none` is its `TypeError`; `json.dumps` with sorted
-- keys and no whitespace; and the hex digest of SHA-256.
pub record Encoders : Type 0 where
  pub orjson_dumps : Value → Option String
  pub json_dumps : Value → String
  pub sha256 : String → String

-- Outside -(2 ** 63) and 2 ** 63 - 1.
abbrev pub is_oversized : ℤ → Bool
is_oversized (pos n) = leb (2 ^ 63) n
is_oversized (negsuc n) = leb (2 ^ 63) n

-- `_has_oversized_int`; a key is a text, which holds no int.
unfoldable mutual
  pub has_oversized_int : Value → Bool
  has_oversized_int null = false
  has_oversized_int (bool b) = false
  has_oversized_int (int n) = is_oversized n
  has_oversized_int (float x) = false
  has_oversized_int (str s) = false
  has_oversized_int (dict fields) = any_oversized_field fields
  has_oversized_int (list items) = any_oversized_item items

  pub any_oversized_field : Fields → Bool
  any_oversized_field no_fields = false
  any_oversized_field (entry k v fields) = has_oversized_int v || any_oversized_field fields

  pub any_oversized_item : Items → Bool
  any_oversized_item no_items = false
  any_oversized_item (item v items) = has_oversized_int v || any_oversized_item items

module _ (enc : Encoders) where
  abbrev pub or_fall_back : Value → Option String → Outcome String
  or_fall_back value (some bytes) = ok bytes
  or_fall_back value none =
      if has_oversized_int value then ok (enc.json_dumps value) else err Error.type_error

  unfoldable pub canonical_bytes : Value → Outcome String
  unfolding has_oversized_int
  canonical_bytes value = or_fall_back value (enc.orjson_dumps value)

  unfoldable pub sha256_hex : Value → Outcome String
  sha256_hex value = canonical_bytes value >>= λ bytes. ok (enc.sha256 bytes)

-- orjson refuses a JSON value only for an int outside 64 bits.
pub record IsCanonical (enc : Encoders) : Type 0 where
  pub accepts :
      (v : Value) → has_oversized_int v ≡ false → (s : String) × (enc.orjson_dumps v ≡ some s)

-- A value of the same canonical bytes as this one is equal to it. That holds of every value in which
-- no key of a dict stands twice.
abbrev pub IsFaithful : Encoders → Value → Type 0
IsFaithful enc v =
    (w : Value) (s : String)
    → canonical_bytes enc v ≡ ok s
    → canonical_bytes enc w ≡ ok s
    → eq_value v w ≡ true

-- Every JSON value has canonical bytes: what orjson refuses, the fallback takes.
pub canonical_bytes-ok :
    (enc : Encoders) → IsCanonical enc → (v : Value) → (s : String) × (canonical_bytes enc v ≡ ok s)
unfolding canonical_bytes
canonical_bytes-ok enc law v = elim (Option-cases (enc.orjson_dumps v)) [
  | inr (s, e) ↦ (s, rw e refl)
  | inl refused ↦ elim (Bool-cases (has_oversized_int v)) [
    | inl big ↦ (enc.json_dumps v, rw (refused, big) refl)
    | inr small ↦ let (s, e) = law.accepts v small in (s, rw e refl)
  ]
]
