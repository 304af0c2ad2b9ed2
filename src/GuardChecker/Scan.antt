-- ===== src/GuardChecker/Scan.antt =====
-- `scan_file`, `scan_paths` and `main` of guard_checker.py. The file system and the
-- parser are parameters.
use mathlib.Core.List.Memᴰ
use mathlib.Core.List.{Memᴰ}
use osl_agent_sentinel.Prelude.{
  ℕ, String, Bool, true, false, ◌≡◌, refl, sym, ◌&&◌, ◌⊎◌, inl, inr, List, [], ◌∷◌, ◌++◌, any,
  contains, ◌==◌, string_eq, if◌then◌else◌, map, Outcome, ok, err, ◌>>=◌, >>=-returns, ok-injective,
  ap, subst, ◌∙◌, Bool-cases,
}
use osl_agent_sentinel.Prelude.Text.{concat}
use osl_agent_sentinel.GuardChecker.{Node, GuardViolation, visit, new_scanner}
use osl_agent_sentinel.GuardChecker.Paths.{Unguarded, visit-Unguarded}
use Prim.Native.String

-- `exc.lineno or 0`, `exc.offset or 0` and `exc.msg`
pub record SyntaxError : Type 0 where
  pub line : ℕ
  pub offset : ℕ
  pub msg : String

-- `ast.parse(path.read_text())`, which may raise what the checker does not catch, such as a
-- `UnicodeDecodeError`, what the checker asks of a path, and how a number prints.
pub record FileSystem : Type 0 where
  pub parse : String → Outcome (SyntaxError ⊎ Node)
  pub is_file : String → Bool
  pub is_dir : String → Bool
  pub suffix : String → String
  pub rglob_py : String → List String
  pub parts : String → List String
  pub str_of : ℕ → String

abbrev pub parse_error : String → SyntaxError → GuardViolation
parse_error path exc = record {
  path = path;
  line = exc.line;
  column = exc.offset;
  callee = "<parse error>";
  message = String.◌++◌ "syntax error: " exc.msg;
}

abbrev pub scan_tree : String → SyntaxError ⊎ Node → List GuardViolation
unfolding visit
scan_tree path (inl exc) = parse_error path exc ∷ []
scan_tree path (inr tree) = (visit tree (new_scanner path)).violations

unfoldable pub scan_file : FileSystem → String → Outcome (List GuardViolation)
unfolding scan_tree
scan_file fs path = fs.parse path >>= λ parsed. ok (scan_tree path parsed)

abbrev pub skipped : FileSystem → String → Bool
skipped fs p = any (contains (fs.parts p)) (".venv" ∷ "venv" ∷ "build" ∷ "dist" ∷ "tests" ∷ [])

-- `out.extend(_)`, of what is found first and of what is found after it.
abbrev pub extended :
    Outcome (List GuardViolation) → Outcome (List GuardViolation) → Outcome (List GuardViolation)
extended first rest = first >>= λ xs. rest >>= λ ys. ok (xs ++ ys)

unfoldable pub scan_dir : FileSystem → List String → Outcome (List GuardViolation)
unfolding scan_file
scan_dir fs [] = ok []
scan_dir fs (p ∷ ps) =
    let rest = scan_dir fs ps in if skipped fs p then rest else extended (scan_file fs p) rest

abbrev pub scan_root : FileSystem → String → Outcome (List GuardViolation)
unfolding scan_file scan_dir
scan_root fs root =
    if fs.is_file root && fs.suffix root == ".py"
    then scan_file fs root
    else if fs.is_dir root
    then scan_dir fs (fs.rglob_py root)
    else ok []

unfoldable pub scan_paths : FileSystem → List String → Outcome (List GuardViolation)
unfolding scan_root
scan_paths fs [] = ok []
scan_paths fs (root ∷ roots) = extended (scan_root fs root) (scan_paths fs roots)

-- The exit status of `main`.
abbrev pub exit_status : List GuardViolation → ℕ
exit_status [] = 0
exit_status (v ∷ vs) = 1

-- `f"{v.path}:{v.line}:{v.column}: {v.message}"`
abbrev pub printed_line : FileSystem → GuardViolation → String
unfolding concat
printed_line fs v =
    concat (v.path ∷ ":" ∷ fs.str_of v.line ∷ ":" ∷ fs.str_of v.column ∷ ": " ∷ v.message ∷ [])

-- `main`, with its paths and `--quiet`: the lines that it prints and its result.
unfoldable pub main : FileSystem → List String → Bool → Outcome (List String × ℕ)
unfolding scan_paths
main fs paths quiet = scan_paths fs paths >>= λ violations.
    ok (if quiet then [] else map (printed_line fs) violations, exit_status violations)

-- A file that is a root, or lies below one outside the skipped directories.
pub data Scanned (fs : FileSystem) (path : String) : List String → Type 0 where
  file :
      {roots : List String}
      → fs.is_file path && fs.suffix path == ".py" ≡ true
      → Scanned fs path (path ∷ roots)
  below :
      {root : String} {roots : List String}
      → fs.is_file root && fs.suffix root == ".py" ≡ false
      → fs.is_dir root ≡ true
      → Memᴰ path (fs.rglob_py root)
      → skipped fs path ≡ false
      → Scanned fs path (root ∷ roots)
  later :
      {root : String} {roots : List String} → Scanned fs path roots → Scanned fs path (root ∷ roots)

-- Both parts are in what has been found.
extended-ok :
    (first rest : Outcome (List GuardViolation)) {vs : List GuardViolation}
    → extended first rest ≡ ok vs
    → (xs : List GuardViolation) × (ys : List GuardViolation) × (first ≡ ok xs)
      × (rest ≡ ok ys)
      × (xs ++ ys ≡ vs)
extended-ok (err e) rest h = cc
extended-ok (ok xs) (err e) h = cc
extended-ok (ok xs) (ok ys) h = (xs, ys, refl, refl, ok-injective h)

second_branch {ℓ} :
    {A : Type ℓ} (b c : Bool) (x y z : A)
    → b ≡ false
    → c ≡ true
    → (if b then x else if c then y else z) ≡ y
second_branch true c x y z h k = absurd cc
second_branch false true x y z h k = refl
second_branch false false x y z h k = absurd cc

module _ (fs : FileSystem) (path : String) (v : GuardViolation) (found : List GuardViolation)
    (scanned : scan_file fs path ≡ ok found) (m : Memᴰ v found) where
  Memᴰ-first :
      (rest : Outcome (List GuardViolation)) {vs : List GuardViolation}
      → extended (scan_file fs path) rest ≡ ok vs
      → Memᴰ v vs
  Memᴰ-first rest h =
      let (xs, ys, first, _, e) = extended-ok (scan_file fs path) rest h in
      let same : found ≡ xs = ok-injective (sym scanned ∙ first) in
      subst (λ zs. Memᴰ v zs) e (Memᴰ.append_left ys (subst (λ zs. Memᴰ v zs) same m))

  Memᴰ-scan_dir :
      (ps : List String) {vs : List GuardViolation}
      → skipped fs path ≡ false
      → Memᴰ path ps
      → scan_dir fs ps ≡ ok vs
      → Memᴰ v vs
  unfolding scan_dir
  Memᴰ-scan_dir [] kept d h = elim d [ ]
  Memᴰ-scan_dir (p ∷ ps) {vs} kept (Memᴰ.head e) h =
      let here : extended (scan_file fs path) (scan_dir fs ps) ≡ ok vs =
        sym (
          ap (λ b. if b then scan_dir fs ps else extended (scan_file fs path) (scan_dir fs ps))
            kept)
        ∙ subst
            (λ q.
              (if skipped fs q then scan_dir fs ps else extended (scan_file fs q) (scan_dir fs ps))
              ≡ ok vs)
            (sym e) h in
      Memᴰ-first (scan_dir fs ps) here
  Memᴰ-scan_dir (p ∷ ps) {vs} kept (Memᴰ.tail d) h = elim (Bool-cases (skipped fs p)) [
    | inl skip ↦ Memᴰ-scan_dir ps kept d (
        sym
          (ap (λ b. if b then scan_dir fs ps else extended (scan_file fs p) (scan_dir fs ps)) skip)
        ∙ h)
    | inr keep ↦
        let (xs, ys, _, rest, e) = extended-ok (scan_file fs p) (scan_dir fs ps) (
          sym (
            ap (λ b. if b then scan_dir fs ps else extended (scan_file fs p) (scan_dir fs ps)) keep)
          ∙ h) in
        subst (λ zs. Memᴰ v zs) e (Memᴰ.append_right xs (Memᴰ-scan_dir ps kept d rest))
  ]

  Memᴰ-scan_root :
      (root : String) {vs : List GuardViolation}
      → fs.is_file root && fs.suffix root == ".py" ≡ false
      → fs.is_dir root ≡ true
      → Memᴰ path (fs.rglob_py root)
      → skipped fs path ≡ false
      → scan_root fs root ≡ ok vs
      → Memᴰ v vs
  unfolding scan_root
  Memᴰ-scan_root root no_file dir d kept h = Memᴰ-scan_dir (fs.rglob_py root) kept d (
      sym (
        second_branch (fs.is_file root && fs.suffix root == ".py") (fs.is_dir root)
          (scan_file fs root) (scan_dir fs (fs.rglob_py root)) (ok []) no_file dir)
      ∙ h)

  Memᴰ-scan_paths :
      (roots : List String) {vs : List GuardViolation}
      → Scanned fs path roots
      → scan_paths fs roots ≡ ok vs
      → Memᴰ v vs
  unfolding scan_paths
  Memᴰ-scan_paths [] s h = elim s [ ]
  Memᴰ-scan_paths (_ ∷ roots) {vs} (file py) h = Memᴰ-first (scan_paths fs roots) (
      sym (
        ap
          (λ b.
            extended
              (if b
                then scan_file fs path
                else if fs.is_dir path
                then scan_dir fs (fs.rglob_py path)
                else ok [])
              (scan_paths fs roots))
          py)
      ∙ h)
  Memᴰ-scan_paths (root ∷ roots) (below no_file dir d kept) h =
      let (xs, ys, first, _, e) = extended-ok (scan_root fs root) (scan_paths fs roots) h in
      subst (λ zs. Memᴰ v zs) e (Memᴰ.append_left ys (Memᴰ-scan_root root no_file dir d kept first))
  Memᴰ-scan_paths (root ∷ roots) (later s) h =
      let (xs, ys, _, rest, e) = extended-ok (scan_root fs root) (scan_paths fs roots) h in
      subst (λ zs. Memᴰ v zs) e (Memᴰ.append_right xs (Memᴰ-scan_paths roots s rest))

exit_status-Memᴰ : {v : GuardViolation} (vs : List GuardViolation) → Memᴰ v vs → exit_status vs ≡ 1
exit_status-Memᴰ [] m = elim m [ ]
exit_status-Memᴰ (w ∷ vs) m = refl

Memᴰ-printed :
    (fs : FileSystem) (quiet : Bool) {v : GuardViolation} (vs : List GuardViolation)
    → Memᴰ v vs
    → (quiet ≡ true) ⊎ Memᴰ (printed_line fs v) (if quiet then [] else map (printed_line fs) vs)
Memᴰ-printed fs true vs m = inl refl
Memᴰ-printed fs false [] m = elim m [ ]
Memᴰ-printed fs false (w ∷ vs) (Memᴰ.head e) = inr (Memᴰ.head (ap (printed_line fs) e))
Memᴰ-printed fs false (w ∷ vs) (Memᴰ.tail m) =
    inr (Memᴰ.tail (elim (Memᴰ-printed fs false vs m) [ inl e ↦ absurd cc | inr there ↦ there ]))

-- Where the run raises nothing, an unguarded sensitive call in any file that is in its scope and
-- parses makes the exit status 1, and its line is printed unless the run is quiet.
pub main-Unguarded :
    (fs : FileSystem) (roots : List String) (quiet : Bool) (path : String) (tree : Node)
    (v : GuardViolation) (lines : List String) (status : ℕ)
    → Scanned fs path roots
    → fs.parse path ≡ ok (inr tree)
    → Unguarded path tree v
    → main fs roots quiet ≡ ok (lines, status)
    → ((quiet ≡ true) ⊎ Memᴰ (printed_line fs v) lines) × (status ≡ 1)
unfolding scan_file main
main-Unguarded fs roots quiet path tree v lines status s parsed u h =
    let (vs, run, e) =
      >>=-returns (scan_paths fs roots)
        (λ violations.
          ok (if quiet then [] else map (printed_line fs) violations, exit_status violations))
        h in
    let scanned : scan_file fs path ≡ ok (visit tree (new_scanner path)).violations =
      rw parsed refl in
    let m =
      Memᴰ-scan_paths fs path v (visit tree (new_scanner path)).violations scanned
        ((visit-Unguarded path tree v).1 u) roots s run in
    let ends = ok-injective e in
    (
      subst (λ (x : List String × ℕ). (quiet ≡ true) ⊎ Memᴰ (printed_line fs v) x.0) ends
          (Memᴰ-printed fs quiet vs m),
      sym (ap (λ (x : List String × ℕ). x.1) ends) ∙ exit_status-Memᴰ vs m,
    )
