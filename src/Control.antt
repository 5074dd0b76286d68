-- ===== src/Control.antt =====
-- internal/control: the control plane, which keeps the ledger, the wallets and the accounts.
pub mod Billing
pub mod Ledger
pub mod Fencing
pub mod Health
pub mod Wrapper
pub mod Console
