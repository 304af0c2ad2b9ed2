-- ===== src/Identity.antt =====
-- sentinel/identity: the store and the resolver (resolver.py), the protocol of a store, and the trust
-- scorer (trust_scorer.py).
pub mod Resolver
pub mod Store
pub mod TrustScorer
