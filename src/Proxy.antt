-- ===== src/Proxy.antt =====
-- internal/proxy: the lines that cross the proxy, and the tool policy.
pub mod Frame
pub mod Policy
mod Tests
