-- ===== src/Intents.antt =====
-- server/src/stakingIntents.ts: intents to stake, from the request to the confirmation on chain.
pub mod Request
pub mod Checks
pub mod Summary
pub mod Rows
pub mod Create
pub mod Confirm
pub mod Owned
pub mod Life
pub mod Machine
pub mod Journey
