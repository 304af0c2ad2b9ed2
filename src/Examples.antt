-- ===== src/Examples.antt =====
-- Tests by evaluation, and the theorems at concrete inputs.
mod Data
mod Breaker
mod Identity
mod Policy
mod Pipeline
mod Guards
mod Edges
mod Services
mod Ideal
mod Signatures
mod Bundles
mod Bootstrap
mod Scanners
mod Routes
mod Validators
