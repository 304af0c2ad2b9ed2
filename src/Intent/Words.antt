-- ===== src/Intent/Words.antt =====
-- The words of an intent and of a tool's name, as intent_classifier.py splits them.
use Prim.Native.Char.{code}
use osl_agent_sentinel.Prelude.{
  ℕ, String, Bool, not, ◌&&◌, ◌||◌, List, [], ◌∷◌, contains, leb, ◌==◌, ℕ_eq, string_eq,
  if◌then◌else◌,
}

-- `set(xs)`, in the order of the last occurrences.
unfoldable pub word_set : List String → List String
word_set [] = []
word_set (x ∷ xs) = let rest = word_set xs in if contains rest x then rest else x ∷ rest

abbrev add_run : String → List String → List String
add_run w ws = if w == "" then ws else w ∷ ws

-- The run at the start, which may be empty, and the other ones.
unfoldable split_runs : (ℕ → Bool) → String → String × List String
split_runs p String.[] = ("", [])
split_runs p (String.◌∷◌ c s) =
    let (w, ws) = split_runs p s in if p (code c) then (String.◌∷◌ c w, ws) else ("", add_run w ws)

-- The longest runs of characters of a class, from left to right.
unfoldable pub runs : (ℕ → Bool) → String → List String
unfolding split_runs
runs p s = let (w, ws) = split_runs p s in add_run w ws

abbrev between : ℕ → ℕ → ℕ → Bool
between low high n = leb low n && leb n high

-- `[A-Za-z_]`
abbrev pub is_word_char : ℕ → Bool
is_word_char n = between 65 90 n || (between 97 122 n || n == 95)

-- `[._\-/]`
abbrev pub is_tool_separator : ℕ → Bool
is_tool_separator n = n == 46 || (n == 95 || (n == 45 || n == 47))

-- `_tokenize`, less the `lower` of each word
unfoldable pub tokenize : String → List String
unfolding runs
tokenize s = runs is_word_char s

-- `_split_tool_tokens`
unfoldable pub split_tool_tokens : String → List String
unfolding runs
split_tool_tokens tool = runs (λ n. not (is_tool_separator n)) tool
