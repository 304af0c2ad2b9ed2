-- ===== src/Runtime.antt =====
-- What the program takes from Python's library and from the runtime, as parameters.
use osl_agent_sentinel.Prelude.{String, Option, Error}
use osl_agent_sentinel.Score.{Score}
use osl_agent_sentinel.Models.Value.{ℤ, Value, Fields}

-- What `float` gives, a finite number in units.
pub data Float : Type 0 where
  finite : ℤ → Float
  nan infinity minus_infinity : Float

-- `json.dumps(_, sort_keys=True, default=str)`, `str` on a value that is no text and on an
-- exception, `float` on a text, and `f"{_:.2f}"`.
pub record Library : Type 0 where
  pub dumps : Fields → String
  pub str_of : Value → String
  pub str_of_error : Error → String
  pub parse_float : String → Option Float
  pub fixed2 : Score → String
