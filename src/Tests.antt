-- ===== src/Tests.antt =====
-- The claims at concrete inputs: a world that counts, a router of the handlers of control flow, and
-- small messages and stores.
pub mod Inputs
pub mod Routing
mod Parts
mod Stores
mod Handling
mod Basics
mod Services
mod Settings
mod Arrays
