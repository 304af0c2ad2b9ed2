-- ===== src/GuardChecker/Paths.antt =====
-- What the visitor of guard_checker.py reports, against the paths from the root of the tree.
use mathlib.Core.List.Memᴰ
use mathlib.Core.List.{Memᴰ}
use osl_agent_sentinel.Prelude.{
  ℕ, String, Bool, true, false, ◌≡◌, refl, sym, ap, ◌↔◌, inl, inr, Option, none, some, List, ◌++◌,
  subst,
}
use osl_agent_sentinel.GuardChecker.{
  Node, name, attribute, call, function_def, other, Nodes, no_nodes, node, FunctionKind,
  GuardViolation, GuardScanner, violation, dotted, sensitive, has_guard_decorator, visit,
  new_scanner,
}
use osl_agent_sentinel.GuardChecker.Found.{at_call, unless, found, found_all, visit-report}

-- The tree has a call that is reported as `v`, and no function around it has a guard.
mutual
  pub data Unguarded (path : String) : Node → GuardViolation → Type 0 where
    here :
        {line column : ℕ} {func : Node} {args : Nodes} {callee : String}
        → sensitive (dotted func) ≡ some callee
        → Unguarded path (call line column func args) (violation path line column callee)
    in_callee :
        {line column : ℕ} {func : Node} {args : Nodes} {v : GuardViolation}
        → Unguarded path func v
        → Unguarded path (call line column func args) v
    in_arguments :
        {line column : ℕ} {func : Node} {args : Nodes} {v : GuardViolation}
        → UnguardedIn path args v
        → Unguarded path (call line column func args) v
    in_attribute :
        {value : Node} {attr : String} {v : GuardViolation}
        → Unguarded path value v
        → Unguarded path (attribute value attr) v
    in_body :
        {kind : FunctionKind} {body decorators rest : Nodes} {v : GuardViolation}
        → has_guard_decorator decorators ≡ false
        → UnguardedIn path body v
        → Unguarded path (function_def kind body decorators rest) v
    in_decorators :
        {kind : FunctionKind} {body decorators rest : Nodes} {v : GuardViolation}
        → has_guard_decorator decorators ≡ false
        → UnguardedIn path decorators v
        → Unguarded path (function_def kind body decorators rest) v
    in_rest :
        {kind : FunctionKind} {body decorators rest : Nodes} {v : GuardViolation}
        → has_guard_decorator decorators ≡ false
        → UnguardedIn path rest v
        → Unguarded path (function_def kind body decorators rest) v
    in_other :
        {ns : Nodes} {v : GuardViolation} → UnguardedIn path ns v → Unguarded path (other ns) v

  pub data UnguardedIn (path : String) : Nodes → GuardViolation → Type 0 where
    first :
        {n : Node} {ns : Nodes} {v : GuardViolation}
        → Unguarded path n v
        → UnguardedIn path (node n ns) v
    later :
        {n : Node} {ns : Nodes} {v : GuardViolation}
        → UnguardedIn path ns v
        → UnguardedIn path (node n ns) v

Memᴰ-unless :
    {g : Bool} {v : GuardViolation} {vs : List GuardViolation}
    → Memᴰ v (unless g vs) ↔ ((g ≡ false) × Memᴰ v vs)
Memᴰ-unless {g = true} = (λ m. absurd (Memᴰ.not-nil m), λ h. cc)
Memᴰ-unless {g = false} = (λ m. (refl, m), λ h. h.1)

Memᴰ-at_call :
    {path : String} {line column : ℕ} {found : Option String} {callee : String}
    → found ≡ some callee
    → Memᴰ (violation path line column callee) (at_call path line column found)
Memᴰ-at_call {found = none} h = cc
Memᴰ-at_call {found = some c} h = Memᴰ.head cc

-- The reference list has the calls of the relation, and no others.
mutual
  unfolding found found_all

  Unguarded-found :
      (path : String) {n : Node} {v : GuardViolation} → Unguarded path n v → Memᴰ v (found path n)
  Unguarded-found path (here {line = line} {column = column} {func = func} {args = args} h) =
      Memᴰ.append_left {s = at_call path line column (sensitive (dotted func))}
        (found path func ++ found_all path args) (Memᴰ-at_call h)
  Unguarded-found path (in_callee {line = line} {column = column} {func = func} {args = args} u) =
      Memᴰ.append_right (at_call path line column (sensitive (dotted func)))
        (Memᴰ.append_left (found_all path args) (Unguarded-found path u))
  Unguarded-found path (in_arguments {line = line} {column = column} {func = func} u) =
      Memᴰ.append_right (at_call path line column (sensitive (dotted func)))
        (Memᴰ.append_right (found path func) (UnguardedIn-found path u))
  Unguarded-found path (in_attribute u) = Unguarded-found path u
  Unguarded-found path (in_body {decorators = decorators} {rest = rest} h u) = Memᴰ-unless.1 (
    h,
    Memᴰ.append_left (found_all path decorators ++ found_all path rest) (UnguardedIn-found path u),
  )
  Unguarded-found path (in_decorators {body = body} {rest = rest} h u) = Memᴰ-unless.1 (
    h,
    Memᴰ.append_right (found_all path body)
        (Memᴰ.append_left (found_all path rest) (UnguardedIn-found path u)),
  )
  Unguarded-found path (in_rest {body = body} {decorators = decorators} h u) = Memᴰ-unless.1 (
    h,
    Memᴰ.append_right (found_all path body)
        (Memᴰ.append_right (found_all path decorators) (UnguardedIn-found path u)),
  )
  Unguarded-found path (in_other u) = UnguardedIn-found path u

  UnguardedIn-found :
      (path : String) {ns : Nodes} {v : GuardViolation}
      → UnguardedIn path ns v
      → Memᴰ v (found_all path ns)
  UnguardedIn-found path (first {ns = ns} u) =
      Memᴰ.append_left (found_all path ns) (Unguarded-found path u)
  UnguardedIn-found path (later {n = n} u) =
      Memᴰ.append_right (found path n) (UnguardedIn-found path u)

at_call-Unguarded :
    {path : String} {line column : ℕ} {func : Node} {args : Nodes} {v : GuardViolation}
    (callee : Option String)
    → sensitive (dotted func) ≡ callee
    → Memᴰ v (at_call path line column callee)
    → Unguarded path (call line column func args) v
at_call-Unguarded none h m = absurd (Memᴰ.not-nil m)
at_call-Unguarded {path} {line} {column} {func} {args} (some c) h m =
    subst (Unguarded path (call line column func args)) (sym (Memᴰ.eq_of_singleton m)) (here h)

mutual
  unfolding found found_all

  found-Unguarded :
      (path : String) (n : Node) (v : GuardViolation) → Memᴰ v (found path n) → Unguarded path n v
  found-Unguarded path (name id) v m = absurd (Memᴰ.not-nil m)
  found-Unguarded path (attribute value attr) v m = in_attribute (found-Unguarded path value v m)
  found-Unguarded path (call line column func args) v m =
      elim (Memᴰ.append_cases (at_call path line column (sensitive (dotted func)))
        {t = found path func ++ found_all path args} m) [
          | inl m ↦ at_call-Unguarded (sensitive (dotted func)) refl m
          | inr m ↦ elim (Memᴰ.append_cases (found path func) m) [
            | inl m ↦ in_callee (found-Unguarded path func v m)
            | inr m ↦ in_arguments (found_all-Unguarded path args v m)
          ]
        ]
  found-Unguarded path (function_def kind body decorators rest) v m =
      let (h, m) = Memᴰ-unless.0 m in
      elim (Memᴰ.append_cases (found_all path body) m) [
        | inl m ↦ in_body h (found_all-Unguarded path body v m)
        | inr m ↦ elim (Memᴰ.append_cases (found_all path decorators) m) [
          | inl m ↦ in_decorators h (found_all-Unguarded path decorators v m)
          | inr m ↦ in_rest h (found_all-Unguarded path rest v m)
        ]
      ]
  found-Unguarded path (other ns) v m = in_other (found_all-Unguarded path ns v m)

  found_all-Unguarded :
      (path : String) (ns : Nodes) (v : GuardViolation)
      → Memᴰ v (found_all path ns)
      → UnguardedIn path ns v
  found_all-Unguarded path no_nodes v m = absurd (Memᴰ.not-nil m)
  found_all-Unguarded path (node n ns) v m = elim (Memᴰ.append_cases (found path n) m) [
    | inl m ↦ first (found-Unguarded path n v m)
    | inr m ↦ later (found_all-Unguarded path ns v m)
  ]

-- The visitor reports exactly the calls of a sensitive name around which no function, at any
-- distance, has a guard.
pub visit-Unguarded :
    (path : String) (tree : Node) (v : GuardViolation)
    → Memᴰ v (visit tree (new_scanner path)).violations ↔ Unguarded path tree v
visit-Unguarded path tree v =
    rw (visit-report tree (new_scanner path)) (found-Unguarded path tree v, Unguarded-found path)

-- A visit leaves the stack of guards as it was, and what a file's visit reports comes after what
-- the scanner had.
pub visit-stack : (tree : Node) (s : GuardScanner) → (visit tree s).guarded_stack ≡ s.guarded_stack
visit-stack tree s = ap (λ t. t.guarded_stack) (visit-report tree s)
