-- ===== src/Model.antt =====
-- tools/model/challenge-model.mjs: the executable model of the escrow.
pub mod Doubles
pub mod Types
pub mod Exec
pub mod Shared
pub mod Opening
pub mod Deciding
pub mod Payout
pub mod Machine
pub mod Phase
pub mod Spec
pub mod Settle
pub mod Refine
pub mod Sound
pub mod Step
pub mod Invariant
pub mod Creation
pub mod Actions
pub mod Replies
pub mod Exit
pub mod History
pub mod Payments
pub mod Drain
pub mod Pausing
