-- ===== src/Observer.antt =====
-- tools/client/observer.ts: the observer of the contract's logs that follows reorganisations.
pub mod Types
pub mod Hex
pub mod Exec
pub mod Headers
pub mod Logs
pub mod Sync
pub mod Store
pub mod Chain
pub mod Reads
pub mod Anchors
pub mod Retained
pub mod Setup
pub mod Sound
pub mod Loaded
pub mod Synced
pub mod Returning
pub mod Steady
pub mod Served
pub mod First
pub mod View
