-- ===== src/PolicyEngine/Order.antt =====
-- The order in which rules are tried, and what `evaluate` returns.
use osl_agent_sentinel.Prelude.{
  ℕ, ◌≤◌, ◌≡◌, refl, arith, Bool, true, false, Option, List, [], ◌∷◌, map, select, All, ◌==◌, ℕ_eq,
  if◌then◌else◌, Outcome, ok, err, ap, subst, ok-injective, >>=-returns,
}
use osl_agent_sentinel.Models.Action.{Action}
use osl_agent_sentinel.Models.Decision.{RiskFactor}
use osl_agent_sentinel.Models.Identity.{Identity}
use osl_agent_sentinel.Models.Policy.{
  PolicyRule, PolicyBundle, insert_rule, sort_rules, by_priority,
}
use osl_agent_sentinel.Runtime.{Library}
use osl_agent_sentinel.PolicyEngine.{RuleMatch, matches, evaluate_rules, evaluate}

-- In ascending order of priority.
abbrev pub IsAscending : List PolicyRule → Type 0
IsAscending [] = Unit
IsAscending (r ∷ rs) = All (λ s. r.priority ≤ s.priority) rs × IsAscending rs

-- The rules of one priority, in their order.
abbrev pub of_priority : ℕ → List PolicyRule → List PolicyRule
of_priority p = select (λ r. r.priority == p)

All-insert_rule :
    (P : PolicyRule → Type 0) (r : PolicyRule) (rs : List PolicyRule)
    → P r
    → All P rs
    → All P (insert_rule r rs)
unfolding insert_rule
All-insert_rule P r [] h k = (h, tt)
All-insert_rule P r (s ∷ rs) h k = ground (arith, All-insert_rule P r rs h k.1)

All-le :
    (a b : ℕ) (rs : List PolicyRule)
    → a ≤ b
    → All (λ s. b ≤ s.priority) rs
    → All (λ s. a ≤ s.priority) rs
All-le a b [] h k = tt
All-le a b (s ∷ rs) h k = (omega arith, All-le a b rs h k.1)

insert_rule-IsAscending :
    (r : PolicyRule) (rs : List PolicyRule) → IsAscending rs → IsAscending (insert_rule r rs)
unfolding insert_rule
insert_rule-IsAscending r [] h = (tt, tt)
insert_rule-IsAscending r (s ∷ rs) h = ground (
  arith,
  insert_rule-IsAscending r rs h.1,
  All-le r.priority s.priority rs,
  All-insert_rule (λ x. s.priority ≤ x.priority) r rs,
)

sort_rules-IsAscending : (rs : List PolicyRule) → IsAscending (sort_rules rs)
unfolding sort_rules
sort_rules-IsAscending [] = tt
sort_rules-IsAscending (r ∷ rs) =
    insert_rule-IsAscending r (sort_rules rs) (sort_rules-IsAscending rs)

of_priority-insert_rule :
    (p : ℕ) (r : PolicyRule) (rs : List PolicyRule)
    → of_priority p (insert_rule r rs) ≡ of_priority p (r ∷ rs)
unfolding insert_rule
of_priority-insert_rule p r [] = refl
of_priority-insert_rule p r (s ∷ rs) = ground (arith, of_priority-insert_rule p r rs)

of_priority-sort_rules :
    (p : ℕ) (rs : List PolicyRule) → of_priority p (sort_rules rs) ≡ of_priority p rs
unfolding sort_rules
of_priority-sort_rules p [] = refl
of_priority-sort_rules p (r ∷ rs) =
    ground (arith, of_priority-insert_rule p r (sort_rules rs), of_priority-sort_rules p rs)

-- The rules are tried in ascending priority, and those of one priority are the enabled rules of
-- the bundle of that priority, in the bundle's order.
pub by_priority_lem :
    (b : PolicyBundle) (p : ℕ)
    → IsAscending (by_priority b)
      × (of_priority p (by_priority b) ≡ of_priority p (select (λ r. r.enabled) b.rules))
unfolding by_priority
by_priority_lem b p = (
  sort_rules-IsAscending (select (λ r. r.enabled) b.rules),
  of_priority-sort_rules p (select (λ r. r.enabled) b.rules),
)

abbrev pub passed : Outcome Bool → Bool
passed (ok b) = b
passed (err e) = false

-- `ms` are the matches of the rules that pass the test, in order, each with its rule's effect.
abbrev pub AreMatches : (PolicyRule → Bool) → List PolicyRule → List RuleMatch → Type 0
AreMatches test rs ms =
    (map (λ (m : RuleMatch). m.rule) ms ≡ select test rs)
    × All (λ (m : RuleMatch). m.effect ≡ m.rule.effect) ms

AreMatches-if :
    (test : PolicyRule → Bool) (r : PolicyRule) (rs : List PolicyRule) (ms : List RuleMatch)
    (b : Bool)
    → test r ≡ b
    → AreMatches test rs ms
    → AreMatches test (r ∷ rs) (if b then record { rule = r; effect = r.effect } ∷ ms else ms)
AreMatches-if test r rs ms true e h = (rw e (ap (λ l. r ∷ l) h.0), (refl, h.1))
AreMatches-if test r rs ms false e h = (rw e h.0, h.1)

evaluate_rules-ok :
    (py : Library) (rs : List PolicyRule) (action : Action) (identity : Option Identity)
    (factors : List RiskFactor) (ms : List RuleMatch)
    → evaluate_rules py rs action identity factors ≡ ok ms
    → AreMatches (λ r. passed (matches py r.match action identity factors)) rs ms
unfolding evaluate_rules
evaluate_rules-ok py [] action identity factors ms h =
    subst (AreMatches (λ r. passed (matches py r.match action identity factors)) [])
      (ok-injective h) (refl, tt)
evaluate_rules-ok py (r ∷ rs) action identity factors ms h =
    let test : PolicyRule → Bool = λ r. passed (matches py r.match action identity factors) in
    let (b, matched, h₁) = >>=-returns (matches py r.match action identity factors) _ h in
    let (rest, found, h₂) =
      >>=-returns (evaluate_rules py rs action identity factors)
        (λ (rest : List RuleMatch).
          ok (if b then record { rule = r; effect = r.effect } ∷ rest else rest))
        h₁ in
    subst (AreMatches test (r ∷ rs)) (ok-injective h₂) (
      AreMatches-if test r rs rest b (ap passed matched)
        (evaluate_rules-ok py rs action identity factors rest found))

All-select :
    (P : PolicyRule → Type 0) (test : PolicyRule → Bool) (rs : List PolicyRule)
    → All P rs
    → All P (select test rs)
All-select P test [] h = tt
All-select P test (r ∷ rs) h = ground (arith, All-select P test rs h.1)

select-IsAscending :
    (test : PolicyRule → Bool) (rs : List PolicyRule)
    → IsAscending rs
    → IsAscending (select test rs)
select-IsAscending test [] h = tt
select-IsAscending test (r ∷ rs) h =
    ground
      (arith, select-IsAscending test rs h.1, All-select (λ s. r.priority ≤ s.priority) test rs)

of_priority-select :
    (p : ℕ) (test : PolicyRule → Bool) (rs : List PolicyRule)
    → of_priority p (select test rs) ≡ select test (of_priority p rs)
of_priority-select p test [] = refl
of_priority-select p test (r ∷ rs) = ground (arith, of_priority-select p test rs)

-- The rules of the matches, in ascending priority, are for each priority those enabled rules of the
-- bundle, in its order, that pass the test; each match has the effect of its rule.
abbrev pub AreMatchesOf : (PolicyRule → Bool) → PolicyBundle → ℕ → List RuleMatch → Type 0
AreMatchesOf test b p ms =
    IsAscending (map (λ (m : RuleMatch). m.rule) ms)
    × (of_priority p (map (λ (m : RuleMatch). m.rule) ms)
        ≡ select test (of_priority p (select (λ r. r.enabled) b.rules)))
    × All (λ (m : RuleMatch). m.effect ≡ m.rule.effect) ms

AreMatches-by_priority :
    (test : PolicyRule → Bool) (b : PolicyBundle) (p : ℕ) (ms : List RuleMatch)
    → AreMatches test (by_priority b) ms
    → AreMatchesOf test b p ms
AreMatches-by_priority test b p ms (rules, effects) =
    let (ascending, same) = by_priority_lem b p in
    (
      rw rules (select-IsAscending test (by_priority b) ascending),
      rw (rules, of_priority-select p test (by_priority b), same) refl,
      effects,
    )

-- Where no rule raises, the engine returns the enabled rules of the bundle whose expression matches,
-- in ascending priority and within one priority in the order of the bundle, each with its own effect.
pub evaluate-ok :
    (py : Library) (bundle : PolicyBundle) (action : Action) (identity : Option Identity)
    (factors : List RiskFactor) (ms : List RuleMatch) (p : ℕ)
    → evaluate py bundle action identity factors ≡ ok ms
    → AreMatchesOf (λ r. passed (matches py r.match action identity factors)) bundle p ms
unfolding evaluate
evaluate-ok py bundle action identity factors ms p h =
    AreMatches-by_priority (λ r. passed (matches py r.match action identity factors)) bundle p ms
      (evaluate_rules-ok py (by_priority bundle) action identity factors ms h)
