-- ===== src/Quorum.antt =====
-- tools/client/rpc.ts: the comparison of the heads that several endpoints report.
pub mod Types
pub mod Snapshot
pub mod Head
pub mod Report
pub mod Counting
pub mod Majority
pub mod Agreement
pub mod Serving
pub mod Coherence
pub mod Divergence
