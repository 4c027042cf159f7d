-- ===== src/Events/Types.antt =====
-- tools/client/events.ts: the decoded events. Hashes and addresses are texts; integers are natural
-- numbers; the four dynamic texts of a release are lists of code points.
use challenge_escrow_protoco.Prelude.{ℕ, String, Bool, List}
use challenge_escrow_protoco.Model.Types.{Outcome}

-- `EventKind`
pub data EventKind : Type 0 where
  release_declared pause_status_changed challenge_created acceptance_nonce_advanced : EventKind
  challenge_accepted challenge_cancelled challenge_expired outcome_proposed : EventKind
  outcome_disputed challenge_resolved challenge_voided winnings_claimed : EventKind
  principal_refunded : EventKind

-- `Side`
pub data EventSide : Type 0 where
  on_a on_b : EventSide

pub record ReleaseDeclared : Type 0 where
  pub release_id : String
  pub event_protocol_id : List ℕ
  pub protocol_version : List ℕ
  pub challenge_schema_id : List ℕ
  pub evidence_schema_id : List ℕ
  pub chain_id : ℕ
  pub escrow_contract : String
  pub canonical_token : String
  pub token_decimals : ℕ
  pub value_mode : ℕ
  pub resolver : String
  pub arbiter : String
  pub initial_paused : Bool

pub record PauseStatusChanged : Type 0 where
  pub changed_by : String
  pub previous_paused : Bool
  pub new_paused : Bool

pub record ChallengeCreated : Type 0 where
  pub challenge_id : String
  pub spec_hash : String
  pub instance_nonce : String
  pub challenger_wallet : String
  pub challenger_side : EventSide
  pub stake_amount : ℕ
  pub acceptance_nonce : ℕ
  pub acceptance_deadline : ℕ
  pub observation_time : ℕ
  pub source_correction_cutoff : ℕ
  pub proposal_deadline : ℕ
  pub dispute_window_seconds : ℕ
  pub arbitration_window_seconds : ℕ
  pub timeout_void_at : ℕ
  pub execution_hash : String
  pub terms_hash : String
  pub created_at : ℕ

pub record AcceptanceNonceAdvanced : Type 0 where
  pub challenge_id : String
  pub challenger_wallet : String
  pub previous_nonce : ℕ
  pub new_nonce : ℕ

pub record ChallengeAccepted : Type 0 where
  pub challenge_id : String
  pub accepting_wallet : String
  pub accepting_side : EventSide
  pub consumed_nonce : ℕ
  pub permit_expires_at : ℕ
  pub stake_amount : ℕ

pub record ChallengeCancelled : Type 0 where
  pub challenge_id : String
  pub challenger_wallet : String
  pub refund_amount : ℕ

pub record ChallengeExpired : Type 0 where
  pub challenge_id : String
  pub materialized_by : String
  pub challenger_wallet : String
  pub refund_amount : ℕ

pub record OutcomeProposed : Type 0 where
  pub challenge_id : String
  pub resolver : String
  pub asserted_outcome : Outcome
  pub reason_code : ℕ
  pub evidence_hash : String
  pub dispute_deadline : ℕ

pub record OutcomeDisputed : Type 0 where
  pub challenge_id : String
  pub disputing_wallet : String
  pub asserted_outcome : Outcome
  pub reason_code : ℕ
  pub evidence_hash : String
  pub parent_evidence_hash : String
  pub arbitration_start : ℕ
  pub arbitration_deadline : ℕ

pub record ChallengeResolved : Type 0 where
  pub challenge_id : String
  pub finalized_by : String
  pub final_outcome : Outcome
  pub reason_code : ℕ
  pub final_evidence_hash : String
  pub parent_evidence_hash : String
  pub resolution_path : ℕ
  pub winner_wallet : String
  pub claim_amount : ℕ

pub record ChallengeVoided : Type 0 where
  pub challenge_id : String
  pub materialized_by : String
  pub void_reason : ℕ
  pub final_evidence_hash : String
  pub parent_evidence_hash : String
  pub void_path : ℕ
  pub refund_amount_each : ℕ

pub record WinningsClaimed : Type 0 where
  pub challenge_id : String
  pub entitlement_id : String
  pub wallet : String
  pub amount : ℕ

pub record PrincipalRefunded : Type 0 where
  pub challenge_id : String
  pub entitlement_id : String
  pub wallet : String
  pub origin_state : ℕ
  pub amount : ℕ

-- `DecodedProtocolEvent`
pub data ProtocolEvent : Type 0 where
  released : ReleaseDeclared → ProtocolEvent
  pause_changed : PauseStatusChanged → ProtocolEvent
  created : ChallengeCreated → ProtocolEvent
  nonce_advanced : AcceptanceNonceAdvanced → ProtocolEvent
  accepted : ChallengeAccepted → ProtocolEvent
  cancelled : ChallengeCancelled → ProtocolEvent
  expired : ChallengeExpired → ProtocolEvent
  proposed : OutcomeProposed → ProtocolEvent
  disputed : OutcomeDisputed → ProtocolEvent
  resolved : ChallengeResolved → ProtocolEvent
  voided : ChallengeVoided → ProtocolEvent
  claimed : WinningsClaimed → ProtocolEvent
  refunded : PrincipalRefunded → ProtocolEvent

-- The `kind` of an event.
unfoldable pub kind_of : ProtocolEvent → EventKind
kind_of (released _) = release_declared
kind_of (pause_changed _) = pause_status_changed
kind_of (created _) = challenge_created
kind_of (nonce_advanced _) = acceptance_nonce_advanced
kind_of (accepted _) = challenge_accepted
kind_of (cancelled _) = challenge_cancelled
kind_of (expired _) = challenge_expired
kind_of (proposed _) = outcome_proposed
kind_of (disputed _) = outcome_disputed
kind_of (resolved _) = challenge_resolved
kind_of (voided _) = challenge_voided
kind_of (claimed _) = winnings_claimed
kind_of (refunded _) = principal_refunded

-- The messages of `fail`, without the label that names the field; the last are those of
-- tools/client/projector.ts.
pub data Defect : Type 0 where
  uneven_hex truncated_word word_count unaligned not_bytes32 not_a_number : Defect
  above_uint64 outside_enum not_a_bool padded_address topic_missing zero_hash : Defect
  zero_address not_utf8 offset_unsafe offset_bad length_unsafe payload_truncated : Defect
  padding_bad topic_count trailing_data no_chain wrong_protocol wrong_version : Defect
  wrong_challenge_schema wrong_evidence_schema wrong_contract roles_overlap : Defect
  pause_unchanged stake_range nonce_not_zero deadline_order window_zero cutoff_late : Defect
  timeout_early nonce_step amount_zero arbitration_interval void_outcome parent_hash : Defect
  timeout_hashes timeout_reason final_hash origin_bad signature_missing unknown_signature : Defect
  head_malformed safe_malformed finalized_malformed finalized_alone safe_incoherent : Defect
  finalized_incoherent log_malformed forked_height log_off_head duplicate_position : Defect
  mixed_contracts order_not_canonical : Defect
