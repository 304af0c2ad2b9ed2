-- ===== src/Pipeline.antt =====
-- sentinel/core/pipeline.py
pub mod Risk
pub mod Reconcile
pub mod Evaluate
pub mod Safety
pub mod Refusals
pub mod Denial
