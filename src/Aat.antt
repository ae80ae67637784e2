-- ===== src/Aat.antt =====
-- internal/aat: delegation hops, their tokens, minting and verification.
pub mod Hop
pub mod Jws
pub mod Result
pub mod Rollup
pub mod Verify
mod Tests
