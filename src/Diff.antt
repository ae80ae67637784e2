-- ===== src/Diff.antt =====
-- internal/diff: aligning two runs and reading the first divergence.
pub mod Apart
pub mod Step
pub mod Align
pub mod Tiers
mod Tests
