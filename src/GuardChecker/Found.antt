-- ===== src/GuardChecker/Found.antt =====
-- What a visit of guard_checker.py adds to a scanner, as a list that is computed from the tree.
use mathlib.Core.List.{append-nil, append_assoc}
use osl_agent_sentinel.Prelude.{
  ℕ, String, Bool, true, false, ◌≡◌, refl, ◌∙◌, ap, inl, inr, Option, none, some, List, [], ◌∷◌,
  ◌++◌, any, Bool-cases,
}
use osl_agent_sentinel.GuardChecker.{
  Node, name, attribute, call, function_def, other, Nodes, no_nodes, node, check_call, push, pop,
  GuardViolation, GuardScanner, violation, dotted, sensitive, has_guard_decorator, visit, visit_all,
}

abbrev pub at_call : String → ℕ → ℕ → Option String → List GuardViolation
at_call path line column none = []
at_call path line column (some callee) = violation path line column callee ∷ []

abbrev pub unless : Bool → List GuardViolation → List GuardViolation
unless true vs = []
unless false vs = vs

-- The violations of a tree outside every function, in the order of the visit.
unfoldable mutual
  pub found : String → Node → List GuardViolation
  found path (name id) = []
  found path (attribute value attr) = found path value
  found path (call line column func args) =
      at_call path line column (sensitive (dotted func)) ++ (found path func ++ found_all path args)
  found path (function_def kind body decorators rest) =
      unless (has_guard_decorator decorators)
        (found_all path body ++ (found_all path decorators ++ found_all path rest))
  found path (other ns) = found_all path ns

  pub found_all : String → Nodes → List GuardViolation
  found_all path no_nodes = []
  found_all path (node n ns) = found path n ++ found_all path ns

-- What a scanner is once the visit of a tree adds these violations.
abbrev pub report : GuardScanner → List GuardViolation → GuardScanner
report s vs = record s { violations = s.violations ++ unless (any (λ g. g) s.guarded_stack) vs }

report-report :
    (s : GuardScanner) (vs ws : List GuardViolation) → report (report s vs) ws ≡ report s (vs ++ ws)
report-report s vs ws = elim (Bool-cases (any (λ g. g) s.guarded_stack)) [
  | inl h ↦ simp (h, append-nil)
  | inr h ↦ simp (h, append_assoc)
]

report-nil : (s : GuardScanner) → s ≡ report s []
report-nil s = elim (Bool-cases (any (λ g. g) s.guarded_stack)) [
  | inl h ↦ simp (h, append-nil)
  | inr h ↦ simp (h, append-nil)
]

pop-report :
    (g : Bool) (s : GuardScanner) (vs : List GuardViolation)
    → pop (report (push g s) vs) ≡ report s (unless g vs)
pop-report true s vs = elim (Bool-cases (any (λ g. g) s.guarded_stack)) [
  | inl h ↦ simp (h, append-nil)
  | inr h ↦ simp (h, append-nil)
]
pop-report false s vs = refl

check_call-report :
    (line column : ℕ) (callee : Option String) (s : GuardScanner)
    → check_call line column callee s ≡ report s (at_call s.path line column callee)
check_call-report line column none s = report-nil s
check_call-report line column (some callee) s = elim (Bool-cases (any (λ g. g) s.guarded_stack)) [
  | inl h ↦ simp (h, append-nil)
  | inr h ↦ simp (h)
]

-- The visit of a function, given the visits of its three lists of children.
visit-function :
    (g : Bool) (body decorators rest : Nodes) (s : GuardScanner)
    → visit_all body (push g s) ≡ report (push g s) (found_all s.path body)
    → visit_all decorators (report (push g s) (found_all s.path body))
      ≡ report (report (push g s) (found_all s.path body)) (found_all s.path decorators)
    → visit_all rest (report (push g s) (found_all s.path body ++ found_all s.path decorators))
      ≡ report
          (report (push g s) (found_all s.path body ++ found_all s.path decorators))
          (found_all s.path rest)
    → visit_all rest (visit_all decorators (visit_all body (push g s)))
      ≡ report
          (push g s)
          (found_all s.path body ++ (found_all s.path decorators ++ found_all s.path rest))
visit-function g body decorators rest s hb hd hr = rw (
  hb,
  hd,
  report-report (push g s) (found_all s.path body) (found_all s.path decorators),
  hr,
  report-report (push g s) (found_all s.path body ++ found_all s.path decorators)
      (found_all s.path rest),
  append_assoc (found_all s.path body) (found_all s.path decorators) (found_all s.path rest),
)

mutual
  unfolding visit visit_all found found_all

  pub visit-report : (n : Node) (s : GuardScanner) → visit n s ≡ report s (found s.path n)
  visit-report (name id) s = report-nil s
  visit-report (attribute value attr) s = visit-report value s
  visit-report (call line column func args) s = rw (
    check_call-report line column (sensitive (dotted func)) s,
    visit-report func (report s (at_call s.path line column (sensitive (dotted func)))),
    report-report s (at_call s.path line column (sensitive (dotted func))) (found s.path func),
    visit_all-report args
        (report s (at_call s.path line column (sensitive (dotted func)) ++ found s.path func)),
    report-report s (at_call s.path line column (sensitive (dotted func)) ++ found s.path func)
        (found_all s.path args),
    append_assoc (at_call s.path line column (sensitive (dotted func))) (found s.path func)
        (found_all s.path args),
  )
  visit-report (function_def kind body decorators rest) s =
      ap pop (
        visit-function (has_guard_decorator decorators) body decorators rest s
          (visit_all-report body (push (has_guard_decorator decorators) s))
          (visit_all-report decorators
            (report (push (has_guard_decorator decorators) s) (found_all s.path body)))
          (visit_all-report rest (
            report (push (has_guard_decorator decorators) s)
              (found_all s.path body ++ found_all s.path decorators))))
      ∙ pop-report (has_guard_decorator decorators) s
          (found_all s.path body ++ (found_all s.path decorators ++ found_all s.path rest))
  visit-report (other ns) s = visit_all-report ns s

  pub visit_all-report :
      (ns : Nodes) (s : GuardScanner) → visit_all ns s ≡ report s (found_all s.path ns)
  visit_all-report no_nodes s = report-nil s
  visit_all-report (node n ns) s = rw (
    visit-report n s,
    visit_all-report ns (report s (found s.path n)),
    report-report s (found s.path n) (found_all s.path ns),
  )
