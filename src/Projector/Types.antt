-- ===== src/Projector/Types.antt =====
-- tools/client/projector.ts: the data of a projection. The text of an anomaly's message, and the copies
-- of an event that `eventValue` makes for printing, are left out.
use challenge_escrow_protoco.Prelude.{ℕ, String, Bool, Option, List, Dict}
use challenge_escrow_protoco.Model.Types.{State, Outcome}
use challenge_escrow_protoco.Events.Types.{
  EventKind, ReleaseDeclared, ChallengeCreated, ProtocolEvent,
}

-- `FinalityLabel`; a projection never has the label "unknown".
pub data FinalityLabel : Type 0 where
  latest safe finalized unknown : FinalityLabel

pub record BlockRef : Type 0 where
  pub number : ℕ
  pub hash : String

pub record ProjectionHead : Type 0 where
  pub number : ℕ
  pub hash : String
  pub finality : FinalityLabel
  pub safe : Option BlockRef
  pub finalized : Option BlockRef

pub data AnomalyCode : Type 0 where
  orphan_event invalid_transition duplicate_terminal release_conflict : AnomalyCode
  duplicate_payout : AnomalyCode

pub record ProjectionAnomaly : Type 0 where
  pub code : AnomalyCode
  pub challenge_id : Option String
  pub kind : EventKind

-- `MutableChallenge`. The sets of payouts are lists.
pub record MutableChallenge : Type 0 where
  pub challenge_id : String
  pub state : State
  pub event_count : ℕ
  pub first_event_block : ℕ
  pub last_event_block : ℕ
  pub last_event : EventKind
  pub created_event : ChallengeCreated
  pub acceptance_nonce : ℕ
  pub accepting_wallet : Option String
  pub proposal_evidence_hash : Option String
  pub proposal_outcome : Option Outcome
  pub proposal_reason_code : Option ℕ
  pub proposal_dispute_deadline : Option ℕ
  pub dispute_evidence_hash : Option String
  pub dispute_outcome : Option Outcome
  pub evidence_hashes : List String
  pub payout_ids : List String
  pub payout_wallets : List String

-- What `projectEvent` changes.
pub record Projection : Type 0 where
  pub challenges : Dict MutableChallenge
  pub anomalies : List ProjectionAnomaly
  pub release : Option ReleaseDeclared
  pub paused : Option Bool

-- What a handler makes of a challenge, and the anomaly that it finds.
pub record Verdict : Type 0 where
  pub anomaly : Option AnomalyCode
  pub challenge : MutableChallenge

-- `DecodedProtocolLog`, of which the projection reads the block
pub record DecodedEvent : Type 0 where
  pub block_number : ℕ
  pub block_hash : String
  pub transaction_index : ℕ
  pub log_index : ℕ
  pub event : ProtocolEvent

pub record ProjectedChallenge : Type 0 where
  pub challenge_id : String
  pub state : State
  pub event_count : ℕ
  pub first_event_block : ℕ
  pub last_event_block : ℕ
  pub last_event : EventKind
  pub created : ChallengeCreated
  pub evidence_hashes : List String
  pub payout_count : ℕ

pub data Status : Type 0 where
  consistent incomplete conflicted : Status

-- `ObserverEvidenceRecord`
pub record EvidenceRecord : Type 0 where
  pub head : ProjectionHead
  pub status : Status
  pub release : Option ReleaseDeclared
  pub paused : Option Bool
  pub event_count : ℕ
  pub logs : List DecodedEvent
  pub challenges : List ProjectedChallenge
  pub anomalies : List ProjectionAnomaly
