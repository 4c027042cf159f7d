-- ===== src/Tests.antt =====
-- Tests of the definitions by evaluation, and instances of the theorems at concrete inputs.
pub mod Runs
pub mod Escrow
pub mod Observing
pub mod Polling
pub mod Approving
pub mod Projecting
pub mod Decoding
pub mod Judging
pub mod Hashing
pub mod Losing
pub mod Rounding
