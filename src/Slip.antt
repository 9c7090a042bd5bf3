-- ===== src/Slip.antt =====
-- Package app/slip.
pub mod Resilience
pub mod Errors
pub mod Message
pub mod Snapshot
pub mod Trace
pub mod Router
pub mod Store
pub mod Redaction
pub mod Middleware
