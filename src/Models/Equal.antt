-- ===== src/Models/Equal.antt =====
-- What `==` on JSON values says of texts and numbers.
use osl_agent_sentinel.Prelude.{ℕ, ◌≡◌, refl, arith, String, Bool, true, false, ◌&&◌, eq_iff}
use osl_agent_sentinel.Models.Value.{pos, str, int, eq_value}

pub &&-parts : (a b : Bool) → (a && b) ≡ true → (a ≡ true) × (b ≡ true)
&&-parts true b h = (refl, h)
&&-parts false b h = cc

pub eq_value-str : (s t : String) → eq_value (str s) (str t) ≡ true → s ≡ t
unfolding eq_value
eq_value-str s t h = (eq_iff s t).0 h

pub eq_value-pos : (m n : ℕ) → eq_value (int (pos m)) (int (pos n)) ≡ true → m ≡ n
unfolding eq_value
eq_value-pos m n h = ground arith
