-- ===== src/Auth.antt =====
-- server/src/auth.ts, server/src/auth-wallet.ts, server/src/hub-signature.ts: signing in by a signed
-- challenge, and handing a session to a desktop.
pub mod Challenge
pub mod Pairing
pub mod Session
pub mod Requests
