-- ===== src/Proxy.antt =====
-- internal/proxy: what decides over a request that passes through the proxy, and what stores it.
pub mod Rules
pub mod Pending
pub mod Decide
pub mod Bodies
pub mod Batch
