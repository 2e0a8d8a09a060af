-- ===== src/Auth.antt =====
-- concord_core/src/auth: credentials and their shared cache.
pub mod Errors
pub mod Uses
pub mod Placement
pub mod Material
pub mod Rejection
pub mod Binding
pub mod Orchestrator
pub mod Slot
pub mod System
pub mod Examples
mod Tests
