-- ===== src/Handlers.antt =====
-- app/handlers: the handlers that steps run.
pub mod Conditions
pub mod Basic
pub mod ControlFlow
pub mod Interpolate
pub mod FilterArray
pub mod ArrayTransform
