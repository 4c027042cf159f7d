-- ===== src/Quorum/Types.antt =====
-- tools/client/rpc.ts: endpoints, snapshots, groups and reports.
use challenge_escrow_protoco.Prelude.{ℕ, String, Bool, Option, List}
use challenge_escrow_protoco.Observer.Types.{Header, Answer}

-- `FinalityTag`
pub data Tag : Type 0 where
  latest safe finalized : Tag

pub data SnapshotError : Type 0 where
  finality_tags_unavailable malformed_block_header latest_number_mismatch : SnapshotError
  latest_block_unavailable latest_block_changed finality_order_invalid : SnapshotError
  finality_chain_invalid rpc_read_failed : SnapshotError

-- What an endpoint answers to the reads of one snapshot, in the order in which they are made.
pub record Endpoint : Type 0 where
  pub name : String
  pub has_tags : Bool
  pub block_number : Answer ℕ
  pub first_read : ℕ → Answer (Option Header)
  pub safe_read : Answer (Option Header)
  pub finalized_read : Answer (Option Header)
  pub last_read : ℕ → Answer (Option Header)

-- `RpcEndpointSnapshot`
pub record EndpointSnapshot : Type 0 where
  pub name : String
  pub latest : Option Header
  pub safe : Option Header
  pub finalized : Option Header
  pub error : Option SnapshotError

-- `RpcQuorumGroup`
pub record Group : Type 0 where
  pub block : Header
  pub providers : List String

pub data Status : Type 0 where
  agree conflicted unavailable : Status

-- `RpcQuorumHead`
pub record QuorumHead : Type 0 where
  pub status : Status
  pub agreed : Option Header
  pub supporters : List String
  pub dissenters : List String
  pub unavailable : List String
  pub groups : List Group

-- `RpcQuorumReport`, without its fixed fields
pub record Report : Type 0 where
  pub status : Status
  pub threshold : ℕ
  pub latest_head : QuorumHead
  pub safe_head : QuorumHead
  pub finalized_head : QuorumHead
  pub endpoints : List EndpointSnapshot

-- The errors of `compareRpcQuorum`.
pub data ReportError : Type 0 where
  provider_count threshold_outside no_majority bad_name repeated_name : ReportError

pub data Outcome {ℓ} (A : Type ℓ) : Type ℓ where
  reported : A → Outcome A
  thrown : ReportError → Outcome A
