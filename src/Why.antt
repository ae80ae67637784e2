-- ===== src/Why.antt =====
-- internal/why: grants along a delegation chain, and how they are compared.
pub mod Grant
pub mod Compare
pub mod Scope
pub mod Tools
mod Tests
