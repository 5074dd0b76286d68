-- ===== src/Control/Billing.antt =====
-- internal/control: the slow path that turns metered usage into money. An amount is a whole number of
-- 10^-12 units of currency, the precision of the NUMERIC(38,12) columns.
pub mod Policy
pub mod Wallet
pub mod Job
pub mod Pricing
pub mod Run
pub mod Worth
pub mod Completion
pub mod Liveness
pub mod Conservation
pub mod Settlement
pub mod Charging
pub mod Journal
