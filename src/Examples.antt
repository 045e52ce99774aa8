-- ===== src/Examples.antt =====
-- Small cases at which the theorems apply: the shared data, and a module per component.
pub mod Data
pub mod Confirm
pub mod Create
pub mod Payouts
pub mod Position
pub mod Persist
pub mod Auth
pub mod Rpc
pub mod Indexer
pub mod ResponseCache
pub mod StakeAmounts
