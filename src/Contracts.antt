-- ===== src/Contracts.antt =====
-- pkg/contracts: the types that the gateway and the control plane exchange, and their validation.
pub mod Types
pub mod Decimal
pub mod Events
pub mod Wrapper
