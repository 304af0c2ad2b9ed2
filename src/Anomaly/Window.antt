-- ===== src/Anomaly/Window.antt =====
-- What the window of an agent holds.
use osl_agent_sentinel.Prelude.{
  ℕ, ◌+◌, ◌≤◌, ◌≡◌, refl, sym, ap, arith, String, Bool, false, not, List, [], ◌∷◌, ◌++◌, select,
  ltb, All, ◌==◌, string_eq, if◌then◌else◌, Bool-cases, inl, inr,
}
use osl_agent_sentinel.Prelude.Dict.{lookup-insert}
use osl_agent_sentinel.Models.Action.{Action}
use osl_agent_sentinel.Anomaly.{
  Observation, AgentWindow, BaselineStore, AnomalyDetector, Numerals, get_window, drop_old,
  observed, record_action, score,
}

-- The times of a window do not go back, and end before `now`.
abbrev pub InOrder : List Observation → ℕ → Type 0
InOrder [] now = Unit
InOrder (o ∷ os) now = (o.time ≤ now) × All (λ p. o.time ≤ p.time) os × InOrder os now

abbrev pub is_recent : ℕ → ℕ → Observation → Bool
is_recent now horizon o = not (ltb (o.time + horizon) now)

select-is_recent :
    (now horizon t : ℕ) (os : List Observation)
    → ltb (t + horizon) now ≡ false
    → All (λ p. t ≤ p.time) os
    → select (is_recent now horizon) os ≡ os
select-is_recent now horizon t [] h a = refl
select-is_recent now horizon t (o ∷ os) h (le, a) =
    ground (arith, select-is_recent now horizon t os h a)

drop_old-select :
    (now horizon : ℕ) (os : List Observation)
    → InOrder os now
    → drop_old now horizon os ≡ select (is_recent now horizon) os
unfolding drop_old
drop_old-select now horizon [] ordered = refl
drop_old-select now horizon (o ∷ os) (le, later, rest) =
    elim (Bool-cases (ltb (o.time + horizon) now)) [
      | inl old ↦ rw old (drop_old-select now horizon os rest)
      | inr recent ↦
          rw recent (ap (λ xs. o ∷ xs) (sym (select-is_recent now horizon o.time os recent later)))
    ]

All-snoc :
    (t : ℕ) (os : List Observation) (o : Observation)
    → t ≤ o.time
    → All (λ p. t ≤ p.time) os
    → All (λ p. t ≤ p.time) (os ++ o ∷ [])
All-snoc t [] o le a = (le, tt)
All-snoc t (p ∷ os) o le (h, a) = (h, All-snoc t os o le a)

InOrder-snoc :
    (os : List Observation) (o : Observation) → InOrder os o.time → InOrder (os ++ o ∷ []) o.time
InOrder-snoc [] o ordered = (omega arith, tt, tt)
InOrder-snoc (p ∷ os) o (le, later, rest) =
    (le, All-snoc p.time os o le later, InOrder-snoc os o rest)

-- A scored action is added to the window of its agent, which keeps exactly the observations that
-- are not older than the horizon; the windows of other agents stay as they are.
pub score-window :
    (py : Numerals) (d : AnomalyDetector) (now : ℕ) (action : Action) (s : BaselineStore)
    (agent_did : String)
    → InOrder (get_window s action.agent_did).actions now
    → (get_window (score py d now action s).1 agent_did).actions ≡ (
        if action.agent_did == agent_did
        then select
            (is_recent now (get_window s action.agent_did).horizon)
            ((get_window s action.agent_did).actions ++ observed now action ∷ [])
        else (get_window s agent_did).actions)
unfolding score record_action
score-window py d now action s agent_did ordered =
    let win = get_window s action.agent_did in
    let kept = win.actions ++ observed now action ∷ [] in
    let exact =
      drop_old-select now win.horizon kept
        (InOrder-snoc win.actions (observed now action) ordered) in
    let win' : AgentWindow = record win { actions = drop_old now win.horizon kept } in
    rw (lookup-insert action.agent_did agent_did win' s.windows)
      (elim (Bool-cases (action.agent_did == agent_did)) [
        | inl same ↦ rw same exact
        | inr other ↦ rw other refl
      ])
