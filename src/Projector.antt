-- ===== src/Projector.antt =====
-- tools/client/projector.ts: the projection of decoded events to challenges. The children: the data
-- (Types), the handlers (Opening, Deciding, Resolving, Payouts), the step of one event and the fold
-- (Events), the checks of logs and headers (Checks), the whole projection (Record), and what is proved.
pub mod Types
pub mod Shared
pub mod Opening
pub mod Deciding
pub mod Resolving
pub mod Payouts
pub mod Events
pub mod Checks
pub mod Record
pub mod Payees
pub mod Diagram
pub mod Evolving
pub mod Continuing
pub mod Paying
pub mod Receiving
pub mod Covered
pub mod Received
pub mod Accounting
