-- ===== src/Auth.antt =====
-- internal/auth: the replay cache and the verifier of signed requests.
pub mod Replay
pub mod Verifier
