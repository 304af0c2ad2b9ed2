-- ===== src/Examples/Guards.antt =====
-- The guard checker and the tool validator at concrete inputs.
use mathlib.Core.List.{Memᴰ}
use osl_agent_sentinel.Prelude.{
  ◌≡◌, ◌↔◌, refl, String, true, false, none, some, [], ◌∷◌, inr, ◌⊎◌, ok, Outcome,
}
use osl_agent_sentinel.Prelude.Text.{split}
use osl_agent_sentinel.Prelude.Dict.{lookup, insert}
use osl_agent_sentinel.Models.Value.{Fields}
use osl_agent_sentinel.Models.Action.{ActionType}
use osl_agent_sentinel.Models.Identity.{has_capability}
use osl_agent_sentinel.GuardChecker.{
  Node, name, attribute, call, function_def, plain, other, no_nodes, node, GuardViolation,
  violation, dotted, has_guard_decorator, visit, new_scanner,
}
use osl_agent_sentinel.GuardChecker.Paths.{
  Unguarded, here, in_other, in_body, first, later, visit-Unguarded,
}
use osl_agent_sentinel.GuardChecker.Scan.{
  SyntaxError, FileSystem, below, printed_line, exit_status, main, main-Unguarded, scan_paths,
  scan_file, scan_dir,
}
use osl_agent_sentinel.ToolValidator.{
  ToolRegistry, new_spec, register, SchemaCheck, valid, validate,
}
use osl_agent_sentinel.ToolValidator.Clean.{IsClean, validate-IsClean}
use osl_agent_sentinel.Examples.Data.{agent, action_of}

-- `os.system(cmd)`
abbrev system_call : Node
system_call = call 3 4 (attribute (name "os") "system") (node (name "cmd") no_nodes)

-- A module with the call in a function under `@sentinel.guard(...)`, and in one under `@cached`.
abbrev tree : Node
tree = other (
    node
      (function_def plain (node system_call no_nodes)
        (node (call 1 1 (attribute (name "sentinel") "guard") no_nodes) no_nodes) no_nodes)
      (node
        (function_def plain (node system_call no_nodes) (node (name "cached") no_nodes) no_nodes)
        no_nodes))

abbrev found : GuardViolation
found = violation "a/b.py" 3 4 "os.system"

visit-tree : (visit tree (new_scanner "a/b.py")).violations ≡ found ∷ []
unfolding visit dotted has_guard_decorator split
visit-tree = refl

abbrev unguarded : Unguarded "a/b.py" tree found
unfolding dotted has_guard_decorator split
unguarded = in_other (later (first (in_body refl (first (here refl)))))

visit-Unguarded_example :
    Memᴰ found (visit tree (new_scanner "a/b.py")).violations ↔ Unguarded "a/b.py" tree found
visit-Unguarded_example = visit-Unguarded "a/b.py" tree found

abbrev parse : String → Outcome (SyntaxError ⊎ Node)
parse _ = ok (inr tree)

-- A directory with one file.
abbrev files : FileSystem
files = record {
  parse = parse;
  is_file = λ _. false;
  is_dir = λ _. true;
  suffix = λ _. "";
  rglob_py = λ _. "a/b.py" ∷ [];
  parts = λ _. "a" ∷ "b.py" ∷ [];
  str_of = λ _. "3";
}

main-Unguarded_example :
    ((false ≡ true) ⊎ Memᴰ (printed_line files found) (printed_line files found ∷ []))
    × (exit_status (found ∷ []) ≡ 1)
unfolding dotted has_guard_decorator split main scan_paths scan_dir scan_file visit
main-Unguarded_example =
    main-Unguarded files ("a" ∷ []) false "a/b.py" tree found (printed_line files found ∷ []) 1
      (below refl refl (Memᴰ.head refl) refl) refl unguarded refl

abbrev tools : ToolRegistry
unfolding new_spec register
tools = register [] (new_spec "http.get" "http" none none false none none)

abbrev accept : Fields → Fields → SchemaCheck
accept _ _ = valid

validate-agent :
    validate accept 50 tools (action_of ActionType.http_request "did:web:agent") (some agent)
    ≡ ok []
unfolding validate lookup insert has_capability register new_spec
validate-agent = refl

validate-IsClean_example :
    (validate accept 50 tools (action_of ActionType.http_request "did:web:agent") (some agent)
      ≡ ok [])
    ↔ IsClean accept 50 tools
        (some "http.get")
        (action_of ActionType.http_request "did:web:agent")
        (some agent)
validate-IsClean_example =
    validate-IsClean accept 50 tools (action_of ActionType.http_request "did:web:agent")
      (some agent)
