-- ===== src/Relay.antt =====
-- relay.go: the parsers of a connection's first bytes, and the relay of one connection.
pub mod Slice
pub mod Post
pub mod Sni
pub mod Http
pub mod Peek
pub mod Conn
pub mod Splice
pub mod Serve
