-- ===== src/Signatures.antt =====
-- The signed parts of the program: the encoding of utils/canonical.py, and what is signed over it.
pub mod Canonical
pub mod Scheme
pub mod Iatp
pub mod Signing
pub mod Cmvk
pub mod Loader
