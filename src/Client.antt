-- ===== src/Client.antt =====
-- concord_core/src/client: the execution of one request.
pub mod Challenge
pub mod Classified
pub mod Resolved
pub mod Run
pub mod Prepare
pub mod Execute
pub mod Course
pub mod Send
pub mod AuthHttp
mod Tests
