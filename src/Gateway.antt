-- ===== src/Gateway.antt =====
-- internal/gateway: the data plane, which picks an account for each request.
pub mod Chooser
pub mod Limiter
pub mod Sticky
pub mod Server
