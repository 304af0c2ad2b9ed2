-- ===== src/Api.antt =====
-- sentinel/api: the bearer check (middleware/auth.py), the request id (middleware/request_id.py), the
-- tenant of a request (dependencies.py) and the routes (routes/*.py).
pub mod Auth
pub mod Routes
pub mod Tenants
use osl_agent_sentinel.Prelude.{ℕ, Outcome, ok, err}

-- What a handler answers: a body with a status, or an `HTTPException`. An exception of another kind
-- is the server's own answer 500.
pub data Reply (A : Type 0) : Type 0 where
  replied : ℕ → A → Reply A
  http_error : ℕ → Reply A

-- A handler that returns or raises.
abbrev pub reply_of : {A : Type 0} → ℕ → Outcome A → Reply A
reply_of status (ok body) = replied status body
reply_of status (err e) = http_error 500
