-- ===== src/Tlog.antt =====
-- internal/tlog: the fence between the holders of one log directory.
pub mod Epoch
pub mod Promise
pub mod Append
mod Tests
