-- ===== src/Breaker/Calls.antt =====
-- Calls of one breaker that follow each other.
use osl_agent_sentinel.Prelude.{
  ℕ, zero, suc, ◌+◌, ◌≤◌, ◌<◌, ◌≡◌, sym, subst, arith, Outcome, ok, err, Error,
}
use osl_agent_sentinel.Breaker.{closed, open_state, CircuitBreaker, call, trip}

module _ {ℓ} {A W : Type ℓ} where
  -- An open breaker whose timeout has not passed refuses: `fn` does not run, and nothing changes.
  pub call-open :
      (now later : ℕ) (fn : W → Outcome A × W) (b : CircuitBreaker) (w : W)
      → b.state ≡ open_state
      → now < b.opened_at + b.reset_timeout
      → call now later fn b w ≡ (err Error.dependency_unavailable, b, w)
  unfolding call
  call-open now later fn b w o early = ground arith

  -- After the timeout one call is the probe: if it returns the breaker closes, with no failures
  -- counted; if it raises the breaker is open again from that time on.
  pub call-probe :
      (now later : ℕ) (fn : W → Outcome A × W) (b : CircuitBreaker) (w : W)
      → b.state ≡ open_state
      → 0 < b.half_open_probes
      → b.opened_at + b.reset_timeout ≤ now
      → call now later fn b w ≡ (
        (fn w).0,
        elim (fn w).0 [
          | ok _ ↦ record b { state = closed; failures = 0; probes_in_flight = 0 }
          | err _ ↦ record b {
            state = open_state;
            failures = b.failures + 1;
            opened_at = later;
            probes_in_flight = 0;
          }
        ],
        (fn w).1,
      )
  unfolding call
  call-probe now later fn b w o h late = ground arith

  -- `n` calls in a row, at the times that `clock` gives.
  pub repeat_call :
      (clock : ℕ → ℕ) (fn : W → Outcome A × W) → ℕ → CircuitBreaker × W → CircuitBreaker × W
  repeat_call clock fn zero s = s
  repeat_call clock fn (suc n) s =
      let (b, w) = repeat_call clock fn n s in
      let (_, b', w') = call (clock n) (clock n) fn b w in (b', w')

  call-raises :
      (now : ℕ) (fn : W → Outcome A × W) (e : Error) (b : CircuitBreaker) (w : W)
      → (fn w).0 ≡ err e
      → b.state ≡ closed
      → suc b.failures < b.failure_threshold
      → (call now now fn b w).1 ≡ record b { failures = suc b.failures }
  unfolding call
  call-raises now fn e b w f c h = ground arith

  call-raises_last :
      (now : ℕ) (fn : W → Outcome A × W) (e : Error) (b : CircuitBreaker) (w : W)
      → (fn w).0 ≡ err e
      → b.state ≡ closed
      → suc b.failures ≡ b.failure_threshold
      → (call now now fn b w).1 ≡ trip now (record b { failures = suc b.failures })
  unfolding call
  call-raises_last now fn e b w f c h = ground arith

  -- While `fn` raises, a closed breaker counts the failures one by one until the threshold.
  pub repeat_call-closed :
      (clock : ℕ → ℕ) (fn : W → Outcome A × W) (e : Error) (b : CircuitBreaker) (w : W) (n : ℕ)
      → ((v : W) → (fn v).0 ≡ err e)
      → b.state ≡ closed
      → b.failures ≡ 0
      → n < b.failure_threshold
      → (repeat_call clock fn n (b, w)).0 ≡ record b { failures = n }
  unfolding repeat_call
  repeat_call-closed clock fn e b w zero f c z h = cc
  repeat_call-closed clock fn e b w (suc n) f c z h =
      let s = repeat_call clock fn n (b, w) in
      let ih : s.0 ≡ record b { failures = n } =
        repeat_call-closed clock fn e b w n f c z (omega arith) in
      subst (λ x. (call (clock n) (clock n) fn x s.1).1 ≡ record b { failures = suc n }) (sym ih)
        (call-raises (clock n) fn e (record b { failures = n }) s.1 (f s.1) c h)

  -- The failure that reaches the threshold opens the breaker at the time of that call.
  pub repeat_call-trips :
      (clock : ℕ → ℕ) (fn : W → Outcome A × W) (e : Error) (b : CircuitBreaker) (w : W) (n : ℕ)
      → ((v : W) → (fn v).0 ≡ err e)
      → b.state ≡ closed
      → b.failures ≡ 0
      → b.failure_threshold ≡ suc n
      → (repeat_call clock fn (suc n) (b, w)).0 ≡ trip (clock n) (record b { failures = suc n })
  unfolding repeat_call
  repeat_call-trips clock fn e b w n f c z h =
      let s = repeat_call clock fn n (b, w) in
      let ih : s.0 ≡ record b { failures = n } =
        repeat_call-closed clock fn e b w n f c z (omega arith) in
      subst
        (λ x.
          (call (clock n) (clock n) fn x s.1).1 ≡ trip (clock n) (record b { failures = suc n }))
        (sym ih) (call-raises_last (clock n) fn e (record b { failures = n }) s.1 (f s.1) c (sym h))
