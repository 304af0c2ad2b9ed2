-- ===== src/RateLimit/Budget.antt =====
-- How many requests of a tenant the rate limit forwards, whatever the other tenants send.
use native.Mathlib.Nat.{add-mul}
use osl_agent_sentinel.Prelude.{
  ℕ, ◌+◌, ◌-◌, ◌*◌, ◌≤◌, ◌≡◌, arith, String, false, Option, none, some, List, [], ◌∷◌, ◌==◌,
  string_eq, eq_iff, if◌then◌else◌, sym, ap, ◌∙◌, subst, Bool-cases, inl, inr,
}
use osl_agent_sentinel.Prelude.Dict.{lookup, lookup-insert, lookup-insert_self}
use osl_agent_sentinel.RateLimit.{
  token, Bucket, take_token, TenantRateLimit, Request, Response, forwarded, rate_limited, tenant_of,
  new_bucket, or_new, bucket, dispatch,
}

abbrev pub counts : String → Request → Response → ℕ
counts tenant r forwarded = if tenant_of r == tenant then 1 else 0
counts tenant r (rate_limited _) = 0

-- The number of requests of a tenant that a sequence of requests gets forwarded.
unfoldable pub passes : String → TenantRateLimit → List Request → ℕ
unfolding dispatch
passes tenant m [] = 0
passes tenant m (r ∷ rs) =
    let (response, m') = dispatch m r in counts tenant r response + passes tenant m' rs

-- The clock's readings, in order, between two times.
abbrev pub Ordered : ℕ → List Request → ℕ → Type 0
Ordered start [] end = start ≤ end
Ordered start (r ∷ rs) end = (start ≤ r.opened) × (r.opened ≤ r.now) × Ordered r.now rs end

Ordered-later : (a b end : ℕ) (rs : List Request) → a ≤ b → Ordered b rs end → Ordered a rs end
Ordered-later a b end [] h o = omega arith
Ordered-later a b end (r ∷ rs) h (o, p, q) = (omega arith, p, q)

Ordered-le : (a end : ℕ) (rs : List Request) → Ordered a rs end → a ≤ end
Ordered-le a end [] o = o
Ordered-le a end (r ∷ rs) (o, p, q) = omega (arith, Ordered-le r.now end rs q)

-- The refills of two spans are that of both.
refill-add : (rate a b c : ℕ) → a ≤ b → b ≤ c → (b - a) * rate + (c - b) * rate ≡ (c - a) * rate
refill-add rate a b c h k = sym (add-mul (b - a) (c - b) rate) ∙ ap (λ x. x * rate) (omega arith)

take_token-kept :
    (now : ℕ) (b : Bucket)
    → ((take_token now b).1.refill_rate ≡ b.refill_rate) × ((take_token now b).1.last_refill ≡ now)
unfolding take_token
take_token-kept now b = ground arith

-- What a bucket is worth at a time: its tokens, and what is refilled until then.
abbrev pub worth : Bucket → ℕ → ℕ
worth b end = b.tokens + (end - b.last_refill) * b.refill_rate

dispatch-same :
    (tenant : String) (m : TenantRateLimit) (r : Request) (found : Option Bucket)
    → lookup tenant m.buckets ≡ found
    → tenant_of r ≡ tenant
    → (counts tenant r (dispatch m r).0
        ≡ (if (take_token r.now (or_new m r.opened found)).0 then 1 else 0))
      × (lookup tenant (dispatch m r).1.buckets
          ≡ some (take_token r.now (or_new m r.opened found)).1)
unfolding dispatch
dispatch-same tenant m r found h same =
    rw (same, h)
      (
        ground (arith, eq_iff tenant tenant),
        lookup-insert_self tenant (take_token r.now (or_new m r.opened found)).1 m.buckets,
      )

dispatch-other :
    (tenant : String) (m : TenantRateLimit) (r : Request)
    → (tenant_of r == tenant) ≡ false
    → (counts tenant r (dispatch m r).0 ≡ 0)
      × (lookup tenant (dispatch m r).1.buckets ≡ lookup tenant m.buckets)
unfolding dispatch
dispatch-other tenant m r other =
    let (granted, b) = take_token r.now (bucket m r.opened (tenant_of r)) in
    ground (arith, lookup-insert (tenant_of r) tenant b m.buckets)

-- One request of a tenant, and what its bucket is worth afterwards.
step-paid :
    (now end : ℕ) (b : Bucket) (rest : ℕ)
    → b.last_refill ≤ now
    → now ≤ end
    → rest * token ≤ worth (take_token now b).1 end
    → ((if (take_token now b).0 then 1 else 0) + rest) * token ≤ worth b end
unfolding take_token
step-paid now end b rest before after h =
    ground (arith, refill-add b.refill_rate b.last_refill now end before after)

passes-known :
    (tenant : String) (m : TenantRateLimit) (rs : List Request) (end : ℕ) (b : Bucket)
    → lookup tenant m.buckets ≡ some b
    → Ordered b.last_refill rs end
    → passes tenant m rs * token ≤ worth b end
unfolding passes
passes-known tenant m [] end b h o = omega arith
passes-known tenant m (r ∷ rs) end b h (o, p, q) = elim (Bool-cases (tenant_of r == tenant)) [
  | inl same ↦
      let (counted, stored) =
        dispatch-same tenant m r (some b) h ((eq_iff (tenant_of r) tenant).0 same) in
      let b' = (take_token r.now b).1 in
      let o' = subst (λ t. Ordered t rs end) (sym (take_token-kept r.now b).1) q in
      rw counted (
        step-paid r.now end b (passes tenant (dispatch m r).1 rs) (omega (arith, o, p))
          (Ordered-le r.now end rs q) (passes-known tenant (dispatch m r).1 rs end b' stored o'))
  | inr other ↦
      let (counted, stored) = dispatch-other tenant m r other in
      let rest =
        passes-known tenant (dispatch m r).1 rs end b (stored ∙ h)
          (Ordered-later b.last_refill r.now end rs (omega (arith, o, p)) q) in
      rw counted (omega (arith, rest))
]

-- A tenant without a bucket gets `burst` requests forwarded until a time, and `rpm` for each minute
-- since the start, at most: no order of the requests and nothing that other tenants send changes it.
pub passes-new :
    (tenant : String) (m : TenantRateLimit) (rs : List Request) (start end : ℕ)
    → lookup tenant m.buckets ≡ none
    → Ordered start rs end
    → passes tenant m rs * token ≤ m.burst * token + (end - start) * m.rpm
unfolding passes
passes-new tenant m [] start end h o = omega arith
passes-new tenant m (r ∷ rs) start end h (o, p, q) = elim (Bool-cases (tenant_of r == tenant)) [
  | inl same ↦
      let (counted, stored) =
        dispatch-same tenant m r none h ((eq_iff (tenant_of r) tenant).0 same) in
      let b = new_bucket m r.opened in
      let b' = (take_token r.now b).1 in
      let o' = subst (λ t. Ordered t rs end) (sym (take_token-kept r.now b).1) q in
      let paid =
        step-paid r.now end b (passes tenant (dispatch m r).1 rs) p (Ordered-le r.now end rs q)
          (passes-known tenant (dispatch m r).1 rs end b' stored o') in
      let in_time = Ordered-le r.now end rs q in
      rw counted
        (omega (arith, paid, refill-add m.rpm start r.opened end o (omega (arith, p, in_time))))
  | inr other ↦
      let (counted, stored) = dispatch-other tenant m r other in
      let rest =
        passes-new tenant (dispatch m r).1 rs start end (stored ∙ h)
          (Ordered-later start r.now end rs (omega (arith, o, p)) q) in
      rw counted (omega (arith, rest))
]
