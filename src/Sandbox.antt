-- ===== src/Sandbox.antt =====
-- sentinel/gateway/sandbox.py. The workload, the timer and the native engine are parameters.
pub mod Budget
use osl_agent_sentinel.Prelude.{
  ℕ, String, Bool, true, false, Option, none, some, ltb, if◌then◌else◌,
}

pub data ExecutionRing : Type 0 where
  r0_trusted r1_namespaced r2_container r3_remote_vm : ExecutionRing

-- `ExecutionRing.value`, which the engine is called with.
abbrev pub ring_value : ExecutionRing → String
ring_value r0_trusted = "R0"
ring_value r1_namespaced = "R1"
ring_value r2_container = "R2"
ring_value r3_remote_vm = "R3"

-- How an awaited workload ends: with a value, with a `TimeoutError` or with another exception, and
-- the text of that.
pub data WorkEnd (A : Type 0) : Type 0 where
  returned : A → WorkEnd A
  timed_out : String → WorkEnd A
  failed : String → WorkEnd A

pub record SandboxResult (A : Type 0) : Type 0 where
  pub output : Option A
  pub duration_ms : ℕ
  pub ring : ExecutionRing
  pub truncated : Bool
  pub error : Option String

-- The defaults of `run`.
pub record SandboxLimits : Type 0 where
  pub ring : ExecutionRing
  pub max_ms : ℕ
  pub max_result_bytes : ℕ

abbrev pub default_limits : SandboxLimits
default_limits = record { ring = r2_container; max_ms = 500; max_result_bytes = 1_048_576 }

-- What runs a workload: `asyncio.wait_for` with a time-out in milliseconds; the guard of the native
-- engine, if it can be imported, with a ring, a time-out and a number of bytes; and the number of
-- bytes of `str(output)`, where `none` is an exception.
pub record SandboxHost (W A : Type 0) : Type 0 where
  pub wait_for : W → ℕ → WorkEnd A
  pub engine_guard : Option (String → ℕ → ℕ → W → WorkEnd A)
  pub size_of : A → Option ℕ

abbrev pub size_or_zero : Option ℕ → ℕ
size_or_zero none = 0
size_or_zero (some size) = size

module _ {A : Type 0} where
  abbrev pub failed_result : ℕ → ExecutionRing → String → SandboxResult A
  failed_result duration ring message = record {
    output = none;
    duration_ms = duration;
    ring = ring;
    truncated = false;
    error = some message;
  }

  abbrev pub finished : ℕ → ExecutionRing → Option A → Bool → SandboxResult A
  finished duration ring output truncated = record {
    output = output;
    duration_ms = duration;
    ring = ring;
    truncated = truncated;
    error = none;
  }

  abbrev pub native_result : ℕ → ExecutionRing → WorkEnd A → SandboxResult A
  native_result duration ring (returned output) = finished duration ring (some output) false
  native_result duration ring (timed_out message) = failed_result duration ring message
  native_result duration ring (failed message) = failed_result duration ring message

  abbrev pub python_result : ℕ → SandboxLimits → Option ℕ → WorkEnd A → SandboxResult A
  python_result duration limits size (returned output) =
      if ltb limits.max_result_bytes (size_or_zero size)
      then finished duration limits.ring none true
      else finished duration limits.ring (some output) false
  python_result duration limits size (timed_out _) = failed_result duration limits.ring "timeout"
  python_result duration limits size (failed message) = failed_result duration limits.ring message

  abbrev pub measured : (A → Option ℕ) → WorkEnd A → Option ℕ
  measured size_of (returned output) = size_of output
  measured size_of _ = none

module _ {W A : Type 0} where
  -- `_run_native`
  unfoldable pub run_native :
      (String → ℕ → ℕ → W → WorkEnd A) → SandboxLimits → ℕ → W → SandboxResult A
  run_native guard limits duration workload =
      native_result duration limits.ring
        (guard (ring_value limits.ring) limits.max_ms limits.max_result_bytes workload)

  -- `_run_python`
  unfoldable pub run_python : SandboxHost W A → SandboxLimits → ℕ → W → SandboxResult A
  run_python host limits duration workload =
      let end_of = host.wait_for workload limits.max_ms in
      python_result duration limits (measured host.size_of end_of) end_of

  -- `Sandbox.run`; the duration is what the timer measures.
  unfoldable pub run_sandbox : SandboxHost W A → SandboxLimits → ℕ → W → SandboxResult A
  unfolding run_native run_python
  run_sandbox host limits duration workload = elim host.engine_guard [
    | none ↦ run_python host limits duration workload
    | some guard ↦ run_native guard limits duration workload
  ]
