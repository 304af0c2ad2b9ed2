-- ===== src/Examples/Ideal.antt =====
-- An ideal signature scheme, whose signature is the payload itself, and encoders that tell a few
-- values apart.

use osl_agent_sentinel.Prelude.{
  ◌≡◌, refl, String, Bool, true, false, Option, none, some, ◌==◌, string_eq, eq_iff, Bool-cases,
  inl, inr, ok-injective, ◌∙◌, sym,
}
use osl_agent_sentinel.Models.Value.{Value, eq_value}
use osl_agent_sentinel.Signatures.Canonical.{Encoders, IsCanonical, IsFaithful, canonical_bytes}
use osl_agent_sentinel.Signatures.Scheme.{SignatureScheme, IsSound}

-- `b64encode` puts a letter in front, and `b64decode` takes one off.
abbrev pub encode : String → String
encode s = String.◌∷◌ "b" s

abbrev pub decode : String → Option String
decode String.[] = none
decode (String.◌∷◌ c s) = some s

abbrev pub ideal : SignatureScheme (Unit {0}) (Unit {0})
ideal = record {
  sign = λ key payload. payload;
  verify = λ key signature payload. signature == payload;
  public_key = λ key. key;
  b64encode = encode;
  b64decode = decode;
}

encode-nonempty : (s : String) → (encode s == "") ≡ false
encode-nonempty s = elim (Bool-cases (encode s == "")) [
  | inl empty ↦ let same = (eq_iff (encode s) "").0 empty in absurd cc
  | inr there ↦ there
]

pub ideal-IsSound : IsSound ideal
ideal-IsSound = record {
  accepts = λ key payload. (eq_iff payload payload).1 refl;
  binds = λ key signed payload accepted. (eq_iff signed payload).0 accepted;
  nonempty = λ key payload. encode-nonempty payload;
  decodes = λ bytes. refl;
}

-- Encoders that tell these two values from each other and from all others.
abbrev pub mark : Bool → Bool → String
mark true second = "vv"
mark false true = "v"
mark false false = ""

abbrev pub marking : Value → Value → Encoders
marking v u = record {
  orjson_dumps = λ w. some (mark (eq_value v w) (eq_value u w));
  json_dumps = λ w. "";
  sha256 = λ bytes. bytes;
}

pub marking-IsCanonical : (v u : Value) → IsCanonical (marking v u)
marking-IsCanonical v u = record { accepts = λ w h. (mark (eq_value v w) (eq_value u w), refl) }

mark-first : (a b c d : Bool) → mark a b ≡ mark c d → a ≡ true → c ≡ true
mark-first a b true d e h = refl
mark-first true b false true e h = cc
mark-first true b false false e h = cc
mark-first false b false d e h = cc

mark-second : (a b c d : Bool) → mark a b ≡ mark c d → a ≡ false → b ≡ true → d ≡ true
mark-second a b c true e f h = refl
mark-second true b c false e f h = cc
mark-second false false c false e f h = cc
mark-second false true true false e f h = cc
mark-second false true false false e f h = cc

pub marking-IsFaithful : (v u : Value) → eq_value v v ≡ true → IsFaithful (marking v u) v
unfolding canonical_bytes
marking-IsFaithful v u itself w s hv hw =
    mark-first (eq_value v v) (eq_value u v) (eq_value v w) (eq_value u w)
      (ok-injective (hv ∙ sym hw)) itself

pub marking-IsFaithful_second :
    (v u : Value) → eq_value v u ≡ false → eq_value u u ≡ true → IsFaithful (marking v u) u
unfolding canonical_bytes
marking-IsFaithful_second v u other itself w s hu hw =
    mark-second (eq_value v u) (eq_value u u) (eq_value v w) (eq_value u w)
      (ok-injective (hu ∙ sym hw)) other itself
