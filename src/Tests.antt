-- ===== src/Tests.antt =====
-- Runs of the model on small inputs, and the theorems applied to them.
mod Chooser
mod Cooldowns
mod Billing
mod Ledger
mod Wrapper
mod Fencing
mod Health
mod Queue
mod Limiter
mod Console
mod Server
mod Migration
mod Stream
