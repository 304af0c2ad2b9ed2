-- ===== src/Api/Auth.antt =====
-- sentinel/api/middleware/auth.py and request_id.py. `str.strip` is a parameter.
use Prim.Native.Char.{code}
use osl_agent_sentinel.Prelude.{
  ◌≡◌, refl, ◌⊎◌, inl, inr, arith, String, Bool, true, false, ◌&&◌, ◌||◌, Option, none, some,
  Bool-cases, List, [], ◌∷◌, contains, ltb, ◌==◌, ℕ_eq, string_eq, eq_iff, if◌then◌else◌, Outcome,
  ok, err, Error,
}

-- The rest of a text after a prefix, if it starts with that.
unfoldable pub after_prefix : String → String → Option String
after_prefix String.[] s = some s
after_prefix (String.◌∷◌ d p) String.[] = none
after_prefix (String.◌∷◌ d p) (String.◌∷◌ c s) =
    let rest = after_prefix p s in if code d == code c then rest else none

-- `s.isascii()`
unfoldable pub is_ascii : String → Bool
is_ascii String.[] = true
is_ascii (String.◌∷◌ c s) = ltb (code c) 128 && is_ascii s

-- `hmac.compare_digest` of two texts, which are to be ASCII.
abbrev pub compare_digest : String → String → Outcome Bool
compare_digest s t = if is_ascii s && is_ascii t then ok (s == t) else err Error.type_error

abbrev pub public_paths : List String
public_paths =
    "/healthz" ∷ "/livez" ∷ "/readyz" ∷ "/metrics" ∷ "/docs" ∷ "/openapi.json" ∷ "/redoc" ∷ []

abbrev pub is_static : Option String → Bool
is_static none = false
is_static (some _) = true

unfoldable pub is_public : String → Bool
unfolding after_prefix
is_public path = contains public_paths path || is_static (after_prefix "/static/" path)

-- What the middleware does with a request; `crashed` is an exception of its own.
pub data Gate : Type 0 where
  forwarded unconfigured unauthorized crashed : Gate

abbrev pub gate_of : Outcome Bool → Gate
gate_of (ok true) = forwarded
gate_of (ok false) = unauthorized
gate_of (err e) = crashed

abbrev pub or_no_header : Option String → String
or_no_header none = ""
or_no_header (some value) = value

module _ (strip : String → String) where
  abbrev pub check_token : String → Option String → Gate
  check_token token none = unauthorized
  check_token token (some presented) = gate_of (compare_digest (strip presented) token)

  -- `BearerAuthMiddleware.dispatch` of a path and of the header `authorization`.
  unfoldable pub authenticate : String → String → Option String → Gate
  unfolding is_public after_prefix is_ascii
  authenticate token path authorization =
      if is_public path
      then forwarded
      else if token == ""
      then unconfigured
      else check_token token (after_prefix "Bearer " (or_no_header authorization))

  -- The header carries the token.
  abbrev pub Presents : String → Option String → Type 0
  Presents token authorization =
      (presented : String) × (after_prefix "Bearer " (or_no_header authorization) ≡ some presented)
      × (strip presented ≡ token)

  check_token-forwarded :
      (token : String) (o : Option String)
      → check_token token o ≡ forwarded
      → (presented : String) × (o ≡ some presented) × (strip presented ≡ token)
  check_token-forwarded token none h = absurd (ground arith)
  check_token-forwarded token (some presented) h =
      (presented, refl, ground (arith, eq_iff (strip presented) token))

  -- A request gets past the bearer check only for a public path or when a token is configured and
  -- the header presents it; with no token configured nothing but a public path gets past.
  pub authenticate-forwarded :
      (token path : String) (authorization : Option String)
      → authenticate token path authorization ≡ forwarded
      → (is_public path ≡ true) ⊎ (((token == "") ≡ false) × Presents token authorization)
  unfolding authenticate
  authenticate-forwarded token path authorization h = elim (Bool-cases (is_public path)) [
    | inl open_path ↦ inl open_path
    | inr closed ↦ elim (Bool-cases (token == "")) [
      | inl missing ↦ absurd (ground arith)
      | inr there ↦ inr (
        there,
        check_token-forwarded token (after_prefix "Bearer " (or_no_header authorization))
            (ground arith),
      )
    ]
  ]

-- `RequestIdMiddleware.dispatch`: the id that the request and the response carry.
unfoldable pub request_id : Option String → String → String
request_id none fresh = fresh
request_id (some rid) fresh = if rid == "" then fresh else rid
