-- ===== src/Http.antt =====
-- code/http: requests, responses and connections.
pub mod Base64
pub mod Form
pub mod Verify
pub mod Lines
pub mod Request
pub mod Response
pub mod Conn
