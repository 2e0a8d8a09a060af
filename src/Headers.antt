-- ===== src/Headers.antt =====
-- concord_core/src/redaction.rs and concord_core/src/header_ownership.rs: which names carry secrets, which
-- belong to the client or the transport, and what debug output shows.
pub mod Text
pub mod Names
pub mod Maps
pub mod Sanitize
pub mod Ownership
pub mod Search
pub mod Bearing
pub mod Case
pub mod Classes
pub mod Secrecy
mod Tests
