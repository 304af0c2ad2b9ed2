-- ===== src/RateLimit.antt =====
-- sentinel/api/middleware/rate_limit.py. The clock is in microseconds, and tokens are counted in
-- units of 1 / 60_000_000, of which `rpm` are refilled in each microsecond. `time.monotonic()` does
-- not go back.
pub mod Budget
use osl_agent_sentinel.Prelude.{
  ℕ, ◌+◌, ◌-◌, ◌*◌, min, String, Bool, true, false, Option, none, some, leb, if◌then◌else◌,
}
use osl_agent_sentinel.Prelude.Dict.{Dict, lookup, insert}

abbrev pub token : ℕ
token = 60_000_000

pub record Bucket : Type 0 where
  pub capacity : ℕ
  pub tokens : ℕ
  pub refill_rate : ℕ
  pub last_refill : ℕ

abbrev pub refill : ℕ → Bucket → Bucket
refill now b = record b {
  tokens = min b.capacity (b.tokens + (now - b.last_refill) * b.refill_rate);
  last_refill = now;
}

abbrev pub spend : Bucket → Bool × Bucket
spend b = if leb token b.tokens then (true, record b { tokens = b.tokens - token }) else (false, b)

-- `take()`, of one token
unfoldable pub take_token : ℕ → Bucket → Bool × Bucket
take_token now b = spend (refill now b)

pub record TenantRateLimit : Type 0 where
  pub rpm : ℕ
  pub burst : ℕ
  pub buckets : Dict Bucket

-- A request: its `X-Tenant-Id`, and the clock when a bucket is made for it and when it takes.
pub record Request : Type 0 where
  pub tenant_header : Option String
  pub opened : ℕ
  pub now : ℕ

pub data Response : Type 0 where
  forwarded : Response
  rate_limited : String → Response

abbrev pub tenant_of : Request → String
tenant_of r = elim r.tenant_header [ none ↦ "default" | some t ↦ t ]

abbrev pub new_bucket : TenantRateLimit → ℕ → Bucket
new_bucket m now = record {
  capacity = m.burst * token;
  tokens = m.burst * token;
  refill_rate = m.rpm;
  last_refill = now;
}

abbrev pub or_new : TenantRateLimit → ℕ → Option Bucket → Bucket
or_new m now none = new_bucket m now
or_new m now (some b) = b

-- `_bucket`; the entry that it makes is written by `dispatch`, together with what `take` changes.
abbrev pub bucket : TenantRateLimit → ℕ → String → Bucket
bucket m now tenant = or_new m now (lookup tenant m.buckets)

unfoldable pub dispatch : TenantRateLimit → Request → Response × TenantRateLimit
dispatch m r =
    let (granted, b) = take_token r.now (bucket m r.opened (tenant_of r)) in
    (
      (if granted then forwarded else rate_limited (tenant_of r)),
      record m { buckets = insert (tenant_of r) b m.buckets },
    )
