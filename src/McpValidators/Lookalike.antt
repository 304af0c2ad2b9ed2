-- ===== src/McpValidators/Lookalike.antt =====
-- What the check of a tool's name against lookalikes leaves out.
use Prim.Native.Char.{code}
use Prim.Native.String.{String}
use osl_agent_sentinel.Prelude.{
  ℕ, ◌≤◌, ◌<◌, ◌≡◌, ◌≢◌, refl, ap, arith, false, ◌⊎◌, inl, inr, List, [], ◌∷◌, ◌==◌, string_eq,
  Bool-cases, ltb, All, contains, eq_iff,
}
use osl_agent_sentinel.Prelude.Text.{text_length}
use osl_agent_sentinel.McpValidators.{
  McpInvocation, ascii_of, has_control, detect_tool_name_collision,
}

-- What the encoding drops it does not replace.
ascii_of-le : (s : String) → text_length (ascii_of s) ≤ text_length s
unfolding ascii_of text_length
ascii_of-le String.[] = omega arith
ascii_of-le (String.◌∷◌ c s) = elim (Bool-cases (ltb (code c) 128)) [
  | inl h ↦ rw h omega (arith, ascii_of-le s)
  | inr h ↦ rw h omega (arith, ascii_of-le s)
]

ascii_of-cases : (s : String) → (ascii_of s ≡ s) ⊎ (text_length (ascii_of s) < text_length s)
unfolding ascii_of text_length
ascii_of-cases String.[] = inl refl
ascii_of-cases (String.◌∷◌ c s) = elim (Bool-cases (ltb (code c) 128)) [
  | inl h ↦ elim (ascii_of-cases s) [
    | inl same ↦ inl (rw (h, same) refl)
    | inr shorter ↦ inr (rw h omega (arith, shorter))
  ]
  | inr h ↦ inr (rw h omega (arith, ascii_of-le s))
]

-- A name that is shorter than all of these is none of them.
contains-short :
    (names : List String) (s : String)
    → All (λ a. text_length s < text_length a) names
    → contains names s ≡ false
contains-short [] s h = refl
contains-short (a ∷ names) s h = elim (Bool-cases (a == s)) [
  | inl same ↦ absurd (let e : a ≡ s = (eq_iff a s).0 same in omega (arith, h.0, ap text_length e))
  | inr other ↦ rw other (contains-short names s h.1)
]

All-longer :
    (names : List String) (n m : ℕ)
    → m < n
    → All (λ a. n ≤ text_length a) names
    → All (λ a. m < text_length a) names
All-longer [] n m h all = tt
All-longer (a ∷ names) n m h all = (omega (arith, h, all.0), All-longer names n m h all.1)

-- A name that is not empty, has no control or zero-width character and is no longer than any of the
-- allowed names passes the check, whatever its other characters look like.
pub detect_tool_name_collision-substituted :
    (invocation : McpInvocation) (allowed_names : List String)
    → invocation.tool ≢ ""
    → has_control invocation.tool ≡ false
    → All (λ a. text_length invocation.tool ≤ text_length a) allowed_names
    → detect_tool_name_collision invocation allowed_names ≡ []
unfolding detect_tool_name_collision
detect_tool_name_collision-substituted invocation allowed_names named printable long =
    elim (ascii_of-cases invocation.tool) [
      | inl same ↦
          ground
            (arith, eq_iff invocation.tool "", eq_iff (ascii_of invocation.tool) invocation.tool)
      | inr shorter ↦
          let missed = contains-short allowed_names (ascii_of invocation.tool) (
            All-longer allowed_names (text_length invocation.tool)
              (text_length (ascii_of invocation.tool)) shorter long) in
          ground (arith, missed, eq_iff invocation.tool "")
    ]
