-- ===== src/Migration.antt =====
-- internal/migration/newapi: the import of another gateway's users and tokens.
pub mod Types
pub mod Conversion
pub mod Records
pub mod Users
pub mod Tokens
pub mod Sources
pub mod Statuses
pub mod Verdict
pub mod Mapped
pub mod Owned
pub mod Origins
pub mod Recorded
pub mod Traced
