-- ===== src/Connection.antt =====
-- billiard/connection.py: messages over a stream of bytes, and the handshake of the authentication.
pub mod Header
pub mod Stream
pub mod Endpoint
pub mod Challenge
