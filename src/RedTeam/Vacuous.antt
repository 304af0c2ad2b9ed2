-- ===== src/RedTeam/Vacuous.antt =====
-- What the red-team harness can find with an interceptor that knows no identity, such as the default
-- one of bootstrap.py, which `redteam run` of cli.py builds.
use osl_agent_sentinel.Prelude.{
  ℕ, ◌≡◌, ◌≢◌, refl, ◌∙◌, subst, arith, List, [], ◌∷◌, Outcome, ok, err, Outcome-cases, inl, inr,
  Error,
}
use osl_agent_sentinel.Prelude.Dict.{lookup}
use osl_agent_sentinel.Models.Action.{Action}
use osl_agent_sentinel.Models.Decision.{
  DecisionVerdict, allow, verdict_eq, verdict_beq_iff, Decision,
}
use osl_agent_sentinel.Identity.Resolver.{resolve, get}
use osl_agent_sentinel.Pipeline.Evaluate.{PipelineState, Reading}
use osl_agent_sentinel.Pipeline.Refusals.{evaluate-frame}
use osl_agent_sentinel.Interceptor.{Interceptor, stamped, evaluate}
use osl_agent_sentinel.Interceptor.Safety.{evaluate-safe}
use osl_agent_sentinel.RedTeam.{RedTeamScenario, RedTeamReport, run}
use osl_agent_sentinel.RedTeam.Counts.{slipped, names, run-counts}

slipped-nil :
    (scenario : RedTeamScenario) (v : DecisionVerdict) → v ≢ allow → slipped scenario v ≡ []
slipped-nil scenario v other = ground (arith, verdict_beq_iff v allow)

module _ {W Record : Type 0} (i : Interceptor W Record)
    (reading : Action → PipelineState W → Reading) (elapsed : ℕ) where
  -- The interceptor as the harness calls it.
  abbrev pub answers : Action → PipelineState W → Outcome Decision × PipelineState W
  answers action s = evaluate i (reading action s) elapsed action s

  store-answers : (action : Action) (s : PipelineState W) → (answers action s).1.store ≡ s.store
  unfolding evaluate
  store-answers action s =
      (evaluate-frame i.deps (reading action s) (stamped i.sha256_hex action) s).0

  unknown-ne-allow :
      (action : Action) (s : PipelineState W) (d : Decision)
      → s.store ≡ []
      → (answers action s).0 ≡ ok d
      → d.verdict ≢ allow
  unfolding resolve get lookup
  unknown-ne-allow action s d empty answered allowed =
      let (identity, _, known, _, _) =
        evaluate-safe i (reading action s) elapsed action s d answered allowed in
      let missing : err Error.identity_error ≡ ok identity =
        subst (λ store. resolve store (stamped i.sha256_hex action).agent_did ≡ ok identity) empty
          known in
      cc

  names-nil :
      (scenarios : List RedTeamScenario) (s : PipelineState W)
      → s.store ≡ []
      → names answers slipped scenarios s ≡ []
  unfolding names
  names-nil [] s empty = refl
  names-nil (scenario ∷ scenarios) s empty =
      let later =
        names-nil scenarios (answers scenario.action s).1
          (store-answers scenario.action s ∙ empty) in
      elim (Outcome-cases (answers scenario.action s).0) [
        | inl (d, answered) ↦
            let now =
              slipped-nil scenario d.verdict
                (unknown-ne-allow scenario.action s d empty answered) in
            rw (answered, now) later
        | inr (e, failed) ↦ rw failed later
      ]

  -- A run against an interceptor whose identity store is empty finds no false negative, whatever the
  -- scenarios, the policy and the classifiers: no action of an unknown agent is ever allowed.
  pub run-no_identity :
      (scenarios : List RedTeamScenario) (s : PipelineState W) (report : RedTeamReport)
      → s.store ≡ []
      → (run answers scenarios s).0 ≡ ok report
      → report.false_negatives ≡ []
  run-no_identity scenarios s report empty finished =
      let (_, negatives, _, _) = run-counts answers scenarios s report finished in
      negatives ∙ names-nil scenarios s empty
