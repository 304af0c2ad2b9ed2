-- ===== src/RedTeam/Counts.antt =====
-- What the report of a red-team run says.
use mathlib.Core.List.{append-nil, append_assoc}
use osl_agent_sentinel.Prelude.{
  suc, ◌+◌, ◌≡◌, refl, sym, ◌∙◌, ap, arith, String, not, ◌&&◌, List, [], ◌∷◌, ◌++◌, length,
  length-append, ◌==◌, if◌then◌else◌, Outcome, ok, err, ok-injective, subst,
}
use osl_agent_sentinel.Models.Action.{Action}
use osl_agent_sentinel.Models.Decision.{DecisionVerdict, allow, verdict_eq, Decision}
use osl_agent_sentinel.RedTeam.{
  RedTeamScenario, RedTeamReport, new_report, judge, judged, run_from, run,
}

-- What one decision adds to the two lists.
abbrev pub slipped : RedTeamScenario → DecisionVerdict → List String
slipped scenario v =
    if not (scenario.expected_verdict == allow) && (v == allow) then scenario.name ∷ [] else []

abbrev pub overblocked : RedTeamScenario → DecisionVerdict → List String
overblocked scenario v =
    if (scenario.expected_verdict == allow) && not (v == allow) then scenario.name ∷ [] else []

abbrev pub of_answer : (DecisionVerdict → List String) → Outcome Decision → List String
of_answer f (ok d) = f d.verdict
of_answer f (err e) = []

judge-counts :
    (scenario : RedTeamScenario) (v : DecisionVerdict) (r : RedTeamReport)
    → ((judge scenario v r).total ≡ r.total)
      × ((judge scenario v r).false_negatives ≡ r.false_negatives ++ slipped scenario v)
      × ((judge scenario v r).false_positives ≡ r.false_positives ++ overblocked scenario v)
      × ((judge scenario v r).passed + length (slipped scenario v) + length (overblocked scenario v)
          ≡ suc r.passed)
judge-counts scenario v r =
    ground (arith, append-nil r.false_negatives, append-nil r.false_positives)

module _ {S : Type 0} (evaluate : Action → S → Outcome Decision × S) where
  -- The names that the answers to a sequence of scenarios yield, in order.
  unfoldable pub names :
      (RedTeamScenario → DecisionVerdict → List String) → List RedTeamScenario → S → List String
  names f [] s = []
  names f (scenario ∷ scenarios) s =
      let (answer, s') = evaluate scenario.action s in
      of_answer (f scenario) answer ++ names f scenarios s'

  -- How a report has grown over a sequence of scenarios.
  record Grown (scenarios : List RedTeamScenario) (s : S) (r r' : RedTeamReport) : Type 0 where
    total : r'.total ≡ r.total + length scenarios
    negatives : r'.false_negatives ≡ r.false_negatives ++ names slipped scenarios s
    positives : r'.false_positives ≡ r.false_positives ++ names overblocked scenarios s
    balance :
        r'.passed + length (names slipped scenarios s) + length (names overblocked scenarios s)
        ≡ r.passed + length scenarios

  cons-Grown :
      (scenario : RedTeamScenario) (scenarios : List RedTeamScenario) (r : RedTeamReport) (s : S)
      (r' : RedTeamReport) (d : Decision)
      → (evaluate scenario.action s).0 ≡ ok d
      → Grown scenarios
          (evaluate scenario.action s).1
          (judge scenario d.verdict (record r { total = r.total + 1 }))
          r'
      → Grown (scenario ∷ scenarios) s r r'
  unfolding names
  cons-Grown scenario scenarios r s r' d answered g =
      let s' = (evaluate scenario.action s).1 in
      let v = d.verdict in
      let (total, negatives, positives, balance) =
        judge-counts scenario v (record r { total = r.total + 1 }) in
      let missed = names slipped scenarios s' in
      let blocked = names overblocked scenarios s' in
      record {
        total = omega (arith, g.total, total);
        negatives = rw answered (
            g.negatives
            ∙ ap (λ xs. xs ++ missed) negatives
            ∙ append_assoc r.false_negatives (slipped scenario v) missed);
        positives = rw answered (
            g.positives
            ∙ ap (λ xs. xs ++ blocked) positives
            ∙ append_assoc r.false_positives (overblocked scenario v) blocked);
        balance = rw answered (
            omega (
              arith,
              g.balance,
              balance,
              length-append (slipped scenario v) missed,
              length-append (overblocked scenario v) blocked,
            ));
      }

  -- A run that goes on after a scenario has an answer to it.
  resumed :
      (scenario : RedTeamScenario) (scenarios : List RedTeamScenario) (r r' : RedTeamReport)
      (o : Outcome Decision) (s : S)
      → (elim (judged evaluate scenario r o) as (λ _. Outcome RedTeamReport × S) [
        | ok report ↦ run_from evaluate scenarios report s
        | err e ↦ (err e, s)
      ]).0
        ≡ ok r'
      → (d : Decision) × (o ≡ ok d)
        × ((run_from evaluate scenarios
              (judge scenario d.verdict (record r { total = r.total + 1 }))
              s).0
            ≡ ok r')
  resumed scenario scenarios r r' (ok d) s h = (d, refl, h)
  resumed scenario scenarios r r' (err e) s h = cc

  run_from-Grown :
      (scenarios : List RedTeamScenario) (r : RedTeamReport) (s : S) (r' : RedTeamReport)
      → (run_from evaluate scenarios r s).0 ≡ ok r'
      → Grown scenarios s r r'
  unfolding run_from names
  run_from-Grown [] r s r' h =
      let same : r ≡ r' = ok-injective h in
      subst (Grown [] s r) same (record {
        total = omega arith;
        negatives = sym (append-nil r.false_negatives);
        positives = sym (append-nil r.false_positives);
        balance = omega arith;
      })
  run_from-Grown (scenario ∷ scenarios) r s r' h =
      let (answer, s') = evaluate scenario.action s in
      let (d, answered, rest) = resumed scenario scenarios r r' answer s' h in
      cons-Grown scenario scenarios r s r' d answered (
        run_from-Grown scenarios (judge scenario d.verdict (record r { total = r.total + 1 })) s' r'
          rest)

  -- The report of a run that ends: every scenario is counted once, the false negatives are the
  -- scenarios that expect another verdict and were answered with ALLOW, the false positives those
  -- that expect ALLOW and were not, each in order, and all the others count as passed.
  pub run-counts :
      (scenarios : List RedTeamScenario) (s : S) (r : RedTeamReport)
      → (run evaluate scenarios s).0 ≡ ok r
      → (r.total ≡ length scenarios)
        × (r.false_negatives ≡ names slipped scenarios s)
        × (r.false_positives ≡ names overblocked scenarios s)
        × (r.passed + length r.false_negatives + length r.false_positives ≡ r.total)
  unfolding run
  run-counts scenarios s r h =
      let g = run_from-Grown scenarios new_report s r h in
      (
        omega (arith, g.total),
        g.negatives,
        g.positives,
        rw (g.negatives, g.positives) (omega (arith, g.total, g.balance)),
      )
