-- ===== src/Witness.antt =====
-- internal/witness: the witness, its durable state and the checkpoint notes that it reads.
pub mod Head
pub mod Note
pub mod Store
pub mod Cosign
pub mod Register
pub mod Held
pub mod Chain
pub mod Admit
pub mod Prepares
pub mod History
pub mod Safety
mod Tests
