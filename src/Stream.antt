-- ===== src/Stream.antt =====
-- internal/events/stream.go: the stream of events between the gateway and control.
pub mod Envelope
pub mod Consumer
pub mod Delivery
pub mod Exhausted
pub mod Roundtrip
pub mod Rounds
pub mod Metered
