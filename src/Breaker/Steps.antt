-- ===== src/Breaker/Steps.antt =====
-- Concurrent calls of one breaker, as interleavings of the halves of `call`.
use osl_agent_sentinel.Prelude.{ℕ, suc, ◌+◌, ◌-◌, ◌≤◌, ◌<◌, ◌≡◌, arith, ok, err, Error}
use osl_agent_sentinel.Breaker.{CircuitBreaker, admit, record_failure, record_success, IsValid}

-- A breaker, and how many admitted calls have not ended.
pub record System : Type 0 where
  pub breaker : CircuitBreaker
  pub running : ℕ

-- A call enters or is refused; one that runs returns or raises.
pub data Step (s : System) : System → Type 0 where
  enter :
      (now : ℕ)
      → (admit now s.breaker).0 ≡ ok tt
      → Step s (record { breaker = (admit now s.breaker).1; running = suc s.running })
  refuse :
      (now : ℕ)
      → (admit now s.breaker).0 ≡ err Error.dependency_unavailable
      → Step s (record { breaker = (admit now s.breaker).1; running = s.running })
  returns :
      0 < s.running
      → Step s (record { breaker = record_success s.breaker; running = s.running - 1 })
  raises :
      (now : ℕ)
      → 0 < s.running
      → Step s (record { breaker = record_failure now s.breaker; running = s.running - 1 })

-- The task of a running call may also be cancelled. `CancelledError` is no `Exception`, so `call`
-- records nothing for it.
pub data TaskStep (s : System) : System → Type 0 where
  step : {t : System} → Step s t → TaskStep s t
  cancel : 0 < s.running → TaskStep s (record { breaker = s.breaker; running = s.running - 1 })

pub data Reach (R : System → System → Type 0) (s : System) : System → Type 0 where
  here : Reach R s s
  next : {t u : System} → Reach R s t → R t u → Reach R s u

pub Reach-trans :
    {R : System → System → Type 0} {s t u : System} → Reach R s t → Reach R t u → Reach R s u
Reach-trans p here = p
Reach-trans p (next q r) = next (Reach-trans p q) r

pub Reach-Step : {s t : System} → Reach Step s t → Reach TaskStep s t
Reach-Step here = here
Reach-Step (next p q) = next (Reach-Step p) (step q)

-- `IsValid`, with a threshold that can be met.
pub record IsSound (s : System) : Type 0 where
  pub valid : IsValid s.breaker
  pub threshold : 0 < s.breaker.failure_threshold

Step-IsSound : {s t : System} → Step s t → IsSound s → IsSound t
unfolding admit record_failure record_success
Step-IsSound (enter now h) v = ground arith
Step-IsSound (refuse now h) v = ground arith
Step-IsSound (returns h) v = ground arith
Step-IsSound (raises now h) v = ground arith

-- Whatever calls run, are refused, raise or are cancelled, in any order: the probes never exceed
-- the budget, none is counted outside HALF_OPEN, and a closed breaker is below its threshold.
pub Reach-IsSound : {s t : System} → Reach TaskStep s t → IsSound s → IsSound t
Reach-IsSound here v = v
Reach-IsSound (next p (step q)) v = Step-IsSound q (Reach-IsSound p v)
Reach-IsSound (next p (cancel h)) v = let w = Reach-IsSound p v in ground arith

-- Without cancellations every counted probe is a call that runs.
pub record IsCounted (s : System) : Type 0 where
  pub sound : IsSound s
  pub budget : 0 < s.breaker.half_open_probes
  pub counted : s.breaker.probes_in_flight ≤ s.running

Step-IsCounted : {s t : System} → Step s t → IsCounted s → IsCounted t
unfolding admit record_failure record_success
Step-IsCounted (enter now h) v = ground arith
Step-IsCounted (refuse now h) v = ground arith
Step-IsCounted (returns h) v = ground arith
Step-IsCounted (raises now h) v = ground arith

pub Reach-IsCounted : {s t : System} → Reach Step s t → IsCounted s → IsCounted t
Reach-IsCounted here v = v
Reach-IsCounted (next p q) v = Step-IsCounted q (Reach-IsCounted p v)

-- With no cancellation on the way, a breaker that no call uses lets the next one in once its
-- timeout has passed.
pub admit-idle :
    {s t : System} (now : ℕ)
    → IsCounted s
    → Reach Step s t
    → t.running ≡ 0
    → t.breaker.opened_at + t.breaker.reset_timeout ≤ now
    → (admit now t.breaker).0 ≡ ok tt
unfolding admit
admit-idle now v p none_run late = let w = Reach-IsCounted p v in ground arith
