-- ===== src/Spool.antt =====
-- internal/spool: the durable queue of intents and completions.
pub mod Segment
pub mod Writer
pub mod Recover
pub mod Drain
mod Tests
