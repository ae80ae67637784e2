-- ===== src/Why/Tools.antt =====
-- internal/why/aat_i4.go: the `tools` map of an attenuating_agent_token entry, and when one map
-- narrows another.
pub mod Value
pub mod Keys
pub mod Atoms
pub mod Equality
pub mod Json
pub mod Constraint
pub mod Subsumes
pub mod Accepts
pub mod Entry
pub mod Compare
pub mod Permits
pub mod Tests
