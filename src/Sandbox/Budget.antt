-- ===== src/Sandbox/Budget.antt =====
-- What a run in the sandbox gives out.
use osl_agent_sentinel.Prelude.{
  ℕ, ◌≤◌, ◌<◌, ◌≡◌, refl, arith, true, false, Option, none, some, ltb, Bool-cases, inl, inr, ◌⊎◌,
}
use osl_agent_sentinel.Sandbox.{
  WorkEnd, returned, timed_out, failed, SandboxResult, SandboxLimits, SandboxHost, python_result,
  measured, size_or_zero, run_sandbox,
}

-- The result is the value when it is within the budget, the mark of one when it is over it, or the error of a workload
-- that did not return.
abbrev pub IsAccounted : {A : Type 0} → (A → Option ℕ) → ℕ → WorkEnd A → SandboxResult A → Type 0
IsAccounted size_of budget (returned a) r =
    (r.error ≡ none)
    × (((r.output ≡ some a) × (r.truncated ≡ false) × (size_or_zero (size_of a) ≤ budget))
        ⊎ ((r.output ≡ none) × (r.truncated ≡ true) × (budget < size_or_zero (size_of a))))
IsAccounted size_of budget (timed_out message) r =
    (r.output ≡ none) × (r.truncated ≡ false) × (r.error ≡ some "timeout")
IsAccounted size_of budget (failed message) r =
    (r.output ≡ none) × (r.truncated ≡ false) × (r.error ≡ some message)

python_result-IsAccounted :
    {A : Type 0} (size_of : A → Option ℕ) (limits : SandboxLimits) (duration : ℕ) (w : WorkEnd A)
    → IsAccounted size_of limits.max_result_bytes w
        (python_result duration limits (measured size_of w) w)
python_result-IsAccounted size_of limits duration (returned a) =
    elim (Bool-cases (ltb limits.max_result_bytes (size_or_zero (size_of a)))) [
      | inl over ↦ rw over (refl, inr (refl, refl, ground arith))
      | inr within ↦ rw within (refl, inl (refl, refl, ground arith))
    ]
python_result-IsAccounted size_of limits duration (timed_out message) = (refl, refl, refl)
python_result-IsAccounted size_of limits duration (failed message) = (refl, refl, refl)

-- Without the native engine a run always ends with a result: a value that fits the budget of bytes,
-- or whose size cannot be taken, is given out as it is, one over the budget is dropped and marked, and
-- a time-out or an exception of the workload becomes an error without a value.
pub run_sandbox-IsAccounted :
    {W A : Type 0} (host : SandboxHost W A) (limits : SandboxLimits) (duration : ℕ) (workload : W)
    → host.engine_guard ≡ none
    → IsAccounted host.size_of limits.max_result_bytes
        (host.wait_for workload limits.max_ms)
        (run_sandbox host limits duration workload)
unfolding run_sandbox
run_sandbox-IsAccounted host limits duration workload missing =
    rw missing (
      python_result-IsAccounted host.size_of limits duration (host.wait_for workload limits.max_ms))
