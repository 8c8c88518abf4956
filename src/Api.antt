-- ===== src/Api.antt =====
-- internal/api: what stands between a client and the handlers of the HTTP interface.
pub mod Limiter
pub mod Gate
pub mod Hub
pub mod Addresses
pub mod Resend
