-- ===== src/Store.antt =====
-- internal/store: in-memory state that expires.
pub mod Wheel
pub mod RelayStore
pub mod SessionStore
