-- ===== src/Models.antt =====
-- sentinel/models: the records that the other components exchange.
pub mod Value
pub mod Equal
pub mod Edit
pub mod Action
pub mod Decision
pub mod Identity
pub mod Dump
pub mod Texts
pub mod Policy
