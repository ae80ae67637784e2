-- ===== src/Index.antt =====
-- internal/index: the rows of the follower index and their duplicates.
pub mod Rows
mod Tests
