-- ===== src/Model/Refine.antt =====
-- The handlers implement the abstract specification: on the object of a phase, a handler rejects with
-- the code of the specification and leaves the model alone, or stores the object of the next phase
-- and moves the liability by what the contract gains or loses.
mod Opening
mod Creation
mod Deciding
mod Payout
pub use Opening.*
pub use Creation.*
pub use Deciding.*
pub use Payout.*
