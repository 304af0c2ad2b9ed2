-- ===== src/Breaker/Stuck.antt =====
-- Probes that are cancelled stay counted: enough of them leave the breaker HALF_OPEN for ever.
use osl_agent_sentinel.Prelude.{
  ℕ, zero, suc, ◌+◌, ◌≤◌, ◌<◌, ◌≡◌, refl, ap, subst, ◌-◌, arith, ok, err, Error,
}
use osl_agent_sentinel.Breaker.{open_state, half_open, CircuitBreaker, admit}
use osl_agent_sentinel.Breaker.Steps.{
  System, enter, refuse, returns, raises, TaskStep, step, cancel, Reach, here, next, Reach-trans,
}

-- Nothing runs, and the probe budget is used up.
pub record IsStuck (s : System) : Type 0 where
  pub state : s.breaker.state ≡ half_open
  pub spent : s.breaker.half_open_probes ≤ s.breaker.probes_in_flight
  pub idle : s.running ≡ 0

pub admit-IsStuck :
    {s : System} (now : ℕ) → IsStuck s → (admit now s.breaker).0 ≡ err Error.dependency_unavailable
unfolding admit
admit-IsStuck now h = ground arith

TaskStep-IsStuck : {s t : System} → TaskStep s t → IsStuck s → IsStuck t
unfolding admit
TaskStep-IsStuck (step (enter now e)) h = ground arith
TaskStep-IsStuck (step (refuse now e)) h = ground arith
TaskStep-IsStuck (step (returns e)) h = absurd (omega arith)
TaskStep-IsStuck (step (raises now e)) h = absurd (omega arith)
TaskStep-IsStuck (cancel e) h = absurd (omega arith)

Reach-IsStuck : {s t : System} → Reach TaskStep s t → IsStuck s → IsStuck t
Reach-IsStuck here h = h
Reach-IsStuck (next p q) h = TaskStep-IsStuck q (Reach-IsStuck p h)

-- A HALF_OPEN breaker with `n` probes counted.
abbrev pub probing : CircuitBreaker → ℕ → CircuitBreaker
probing b n = record b { state = half_open; probes_in_flight = n }

abbrev pub idle_system : CircuitBreaker → System
idle_system b = record { breaker = b; running = 0 }

admit-probing :
    (now : ℕ) (b : CircuitBreaker) (n : ℕ)
    → n < b.half_open_probes
    → admit now (probing b n) ≡ (ok tt, probing b (suc n))
unfolding admit
admit-probing now b n h = ground arith

admit-open :
    (now : ℕ) (b : CircuitBreaker)
    → b.state ≡ open_state
    → 0 < b.half_open_probes
    → b.opened_at + b.reset_timeout ≤ now
    → admit now b ≡ (ok tt, probing b 1)
unfolding admit
admit-open now b o h late = ground arith

-- One probe that enters and is cancelled.
probe_cancelled :
    (now : ℕ) (b c : CircuitBreaker)
    → admit now b ≡ (ok tt, c)
    → Reach TaskStep (idle_system b) (idle_system c)
probe_cancelled now b c e =
    subst (λ x. Reach TaskStep (idle_system b) (idle_system x)) (ap (λ p. p.1) e)
      (next (next here (step (enter now (ap (λ p. p.0) e)))) (cancel (omega arith)))

probes_cancelled :
    (now : ℕ) (b : CircuitBreaker) (n : ℕ)
    → n < b.half_open_probes
    → Reach TaskStep (idle_system (probing b 1)) (idle_system (probing b (suc n)))
probes_cancelled now b zero h = here
probes_cancelled now b (suc n) h =
    Reach-trans (probes_cancelled now b n (omega arith))
      (probe_cancelled now _ _ (admit-probing now b (suc n) h))

-- From an open breaker whose timeout has passed, and that may let a probe through, there is a run
-- that ends HALF_OPEN with the budget spent and no call running.
pub open_may_stick :
    (now : ℕ) (b : CircuitBreaker)
    → b.state ≡ open_state
    → 0 < b.half_open_probes
    → b.opened_at + b.reset_timeout ≤ now
    → (s : System) × Reach TaskStep (idle_system b) s × IsStuck s
open_may_stick now b o h late =
    let n = b.half_open_probes - 1 in
    (
      idle_system (probing b (suc n)),
      Reach-trans (probe_cancelled now b (probing b 1) (admit-open now b o h late))
          (probes_cancelled now b n (omega arith)),
      record { state = refl; spent = omega arith; idle = refl },
    )

-- Once stuck the breaker stays so, whatever happens, and refuses every call at every time.
pub refuses_forever :
    {s t : System} (later : ℕ)
    → IsStuck s
    → Reach TaskStep s t
    → IsStuck t × ((admit later t.breaker).0 ≡ err Error.dependency_unavailable)
refuses_forever later h p = let k = Reach-IsStuck p h in (k, admit-IsStuck later k)
