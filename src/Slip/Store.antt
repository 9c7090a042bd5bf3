-- ===== src/Slip/Store.antt =====
-- The state stores of app/slip.
pub mod Filter
pub mod FileName
pub mod Memory
pub mod Files
