-- ===== src/Control/Console.antt =====
-- internal/control: the operator's console.
pub mod Base64
pub mod Cursor
