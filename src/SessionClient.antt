-- ===== src/SessionClient.antt =====
-- internal/sessionclient: the client's side of a session.
pub mod Failures
pub mod Reasons
mod Tests
