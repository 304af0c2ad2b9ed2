-- ===== src/Examples/Breaker.antt =====
-- The circuit breaker at concrete inputs.
use osl_agent_sentinel.Prelude.{ℕ, ◌≡◌, refl, arith, Outcome, ok, err, Error}
use osl_agent_sentinel.Breaker.{admit}
use osl_agent_sentinel.Breaker.Steps.{
  System, Step, enter, TaskStep, step, cancel, Reach, here, next, IsSound, Reach-IsSound, IsCounted,
  admit-idle,
}
use osl_agent_sentinel.Breaker.Stuck.{IsStuck, idle_system, probing, open_may_stick}
use osl_agent_sentinel.Examples.Data.{breaker, open_breaker}

abbrev raising : Unit {0} → Outcome ℕ × Unit {0}
raising u = (err Error.raised, u)

abbrev returning : Unit {0} → Outcome ℕ × Unit {0}
returning u = (ok 7, u)

breaker-IsSound : IsSound (idle_system breaker)
breaker-IsSound = ground arith

breaker-IsCounted : IsCounted (idle_system breaker)
breaker-IsCounted = ground arith

abbrev one_running : System
one_running = record { breaker = breaker; running = 1 }

run_one : Reach Step (idle_system breaker) one_running
unfolding admit
run_one = next here (enter 5 refl)

Reach-IsSound_example : IsSound (idle_system breaker)
unfolding admit
Reach-IsSound_example =
    Reach-IsSound (next (next here (step (enter 5 refl))) (cancel (omega arith))) breaker-IsSound

abbrev after_one : System
after_one = record { breaker = record breaker { failures = 0 }; running = 0 }

admit-idle_example : (admit 30_000_000 breaker).0 ≡ ok tt
admit-idle_example =
    admit-idle {s = idle_system breaker} {t = idle_system breaker} 30_000_000 breaker-IsCounted here
      refl (omega arith)

open_may_stick_example : (s : System) × Reach TaskStep (idle_system open_breaker) s × IsStuck s
open_may_stick_example = open_may_stick 30_001_000 open_breaker refl (omega arith) (omega arith)

abbrev stuck : System
stuck = idle_system (probing open_breaker 3)

stuck-IsStuck : IsStuck stuck
stuck-IsStuck = record { state = refl; spent = omega arith; idle = refl }
