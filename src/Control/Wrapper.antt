-- ===== src/Control/Wrapper.antt =====
-- internal/control/wrapper: the queue that hands login jobs to workers.
pub mod Store
pub mod Program
pub mod Queue
pub mod Trace
pub mod Standing
pub mod Once
pub mod Agreement
pub mod Grants
pub mod Progress
