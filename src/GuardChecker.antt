-- ===== src/GuardChecker.antt =====
-- sentinel/static_analysis/guard_checker.py. A tree is Python's, as `ast` gives it: the nodes that
-- the checker looks at have constructors of their own, and `other` holds the children of the rest.
pub mod Found
pub mod Paths
pub mod Scan
use osl_agent_sentinel.Prelude.{
  ℕ, String, Bool, true, false, not, ◌&&◌, Option, none, some, List, [], ◌∷◌, ◌++◌, any, contains,
  ◌==◌, string_eq, if◌then◌else◌,
}
use osl_agent_sentinel.Prelude.Text.{split}
use Prim.Native.String

pub data FunctionKind : Type 0 where
  plain async : FunctionKind

-- The fields of a node are in the order in which `generic_visit` visits them.
mutual
  pub data Node : Type 0 where
    name : String → Node
    attribute : Node → String → Node
    -- line, column, callee, then arguments and keywords
    call : ℕ → ℕ → Node → Nodes → Node
    -- `FunctionDef` or `AsyncFunctionDef`: arguments and body, decorators, then the return
    -- annotation and type parameters
    function_def : FunctionKind → Nodes → Nodes → Nodes → Node
    other : Nodes → Node

  pub data Nodes : Type 0 where
    no_nodes : Nodes
    node : Node → Nodes → Nodes

abbrev pub sensitive_names : List String
sensitive_names =
    "subprocess.Popen" ∷ "subprocess.run" ∷ "subprocess.call" ∷ "os.system" ∷ "os.exec" ∷ "os.execv"
    ∷ "os.execvp" ∷ "os.fork" ∷ "os.kill" ∷ "eval" ∷ "exec" ∷ "compile" ∷ "shutil.rmtree"
    ∷ "socket.socket" ∷ "open" ∷ []

pub record GuardViolation : Type 0 where
  pub path : String
  pub line : ℕ
  pub column : ℕ
  pub callee : String
  pub message : String

pub record GuardScanner : Type 0 where
  pub path : String
  pub violations : List GuardViolation
  -- the last element is the first of this list
  pub guarded_stack : List Bool

-- `GuardScanner(path)`
abbrev pub new_scanner : String → GuardScanner
new_scanner path = record { path = path; violations = []; guarded_stack = false ∷ [] }

abbrev pub under : Option String → String → String
under none attr = attr
under (some base) attr = if base == "" then attr else String.◌++◌ base (String.◌++◌ "." attr)

unfoldable pub dotted : Node → Option String
dotted (name id) = some id
dotted (attribute value attr) = some (under (dotted value) attr)
dotted _ = none

abbrev last_part : List String → String
last_part [] = ""
last_part (s ∷ []) = s
last_part (s ∷ t ∷ ss) = last_part (t ∷ ss)

-- The name of a decorator, with or without arguments.
abbrev pub decorator_name : Node → Option String
unfolding dotted
decorator_name (call _ _ func _) = dotted func
decorator_name dec = dotted dec

-- `name and name.split(".")[-1] == "guard"`; 46 is the code of the dot.
abbrev pub is_guard : Option String → Bool
unfolding split
is_guard none = false
is_guard (some s) = not (s == "") && last_part (split 46 s) == "guard"

unfoldable pub has_guard_decorator : Nodes → Bool
has_guard_decorator no_nodes = false
has_guard_decorator (node dec rest) =
    if is_guard (decorator_name dec) then true else has_guard_decorator rest

-- `callee and callee in _SENSITIVE_NAMES`
abbrev pub sensitive : Option String → Option String
sensitive none = none
sensitive (some callee) =
    if not (callee == "") && contains sensitive_names callee then some callee else none

abbrev pub violation : String → ℕ → ℕ → String → GuardViolation
violation path line column callee = record {
  path = path;
  line = line;
  column = column;
  callee = callee;
  message = String.◌++◌ "unguarded sensitive call: " callee;
}

-- `visit_Call` before `generic_visit`
abbrev pub check_call : ℕ → ℕ → Option String → GuardScanner → GuardScanner
check_call line column none s = s
check_call line column (some callee) s =
    if not (any (λ g. g) s.guarded_stack)
    then record s { violations = s.violations ++ violation s.path line column callee ∷ [] }
    else s

abbrev pub push : Bool → GuardScanner → GuardScanner
push g s = record s { guarded_stack = g ∷ s.guarded_stack }

abbrev tail : List Bool → List Bool
tail [] = []
tail (_ ∷ gs) = gs

abbrev pub pop : GuardScanner → GuardScanner
pop s = record s { guarded_stack = tail s.guarded_stack }

unfoldable mutual
  unfolding dotted has_guard_decorator

  pub visit : Node → GuardScanner → GuardScanner
  visit (name id) s = s
  visit (attribute value attr) s = visit value s
  visit (call line column func args) s =
      visit_all args (visit func (check_call line column (sensitive (dotted func)) s))
  visit (function_def kind body decorators rest) s = pop (
      visit_all rest
        (visit_all decorators (visit_all body (push (has_guard_decorator decorators) s))))
  visit (other children) s = visit_all children s

  pub visit_all : Nodes → GuardScanner → GuardScanner
  visit_all no_nodes s = s
  visit_all (node n ns) s = visit_all ns (visit n s)
