-- ===== src/Relay.antt =====
-- internal/relay: the HTTP polling lane.
pub mod RingBuffer
pub mod Conn
pub mod Manager
pub mod Http
