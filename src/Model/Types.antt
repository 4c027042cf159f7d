-- ===== src/Model/Types.antt =====
-- tools/model/challenge-model.mjs: the data of the executable model. Wallets, identifiers, nonces and
-- hashes are texts, where the empty text stands for a missing field; amounts and times are natural
-- numbers; `null` is `none`.
use challenge_escrow_protoco.Prelude.{ℕ, String, Bool, Option, List, Dict}

-- The source's `State`; OPEN is `opened`.
pub data State : Type 0 where
  opened active proposed disputed cancelled expired resolved_a resolved_b void : State

pub data Outcome : Type 0 where
  for_a for_b for_void : Outcome

-- `challengerSide`: a text that is neither "A" nor "B" is not refused by `create`.
pub data Side : Type 0 where
  side_a side_b side_other : Side

-- The codes of `ModelRejection`.
pub data Code : Type 0 where
  unknown_action challenge_not_found caller_not_pauser pause_status_unchanged contract_paused : Code
  challenge_already_exists instance_nonce_already_used caller_not_challenger : Code
  invalid_execution invalid_deadlines challenge_not_open acceptance_window_closed : Code
  acceptance_window_open caller_not_accepting_wallet invalid_accepting_wallet : Code
  permit_nonce_mismatch invalid_permit challenge_not_active caller_not_resolver : Code
  observation_not_reached proposal_window_closed invalid_proposal : Code
  source_correction_cutoff_not_reached challenge_not_proposed caller_not_participant : Code
  dispute_window_closed invalid_dispute invalid_evidence_lineage : Code
  dispute_deadline_not_reached challenge_not_disputed caller_not_arbiter : Code
  arbitration_window_closed proposal_deadline_not_reached arbitration_deadline_not_reached : Code
  challenge_not_resolved caller_not_winning_wallet challenge_not_refundable : Code
  caller_not_refund_recipient invalid_entitlement liability_accounting_mismatch : Code

-- What is thrown and is no `ModelRejection`: a read through null, and the errors of
-- `assertInvariants` and `apply`.
pub data Fault : Type 0 where
  type_error challenge_accounting terminal_without_final winner_entitlement : Fault
  void_without_acceptor void_entitlement total_liability atomicity_failure : Fault

pub record Entitlement : Type 0 where
  pub claimable : ℕ
  pub paid : ℕ

pub record Paid : Type 0 where
  pub challenger : ℕ
  pub acceptor : ℕ

pub record Proposal : Type 0 where
  pub outcome : Outcome
  pub evidence_hash : String
  pub proposed_at : ℕ
  pub dispute_deadline : ℕ

pub record Dispute : Type 0 where
  pub outcome : Outcome
  pub evidence_hash : String
  pub parent_evidence_hash : String
  pub disputed_at : ℕ
  pub arbitration_start : ℕ
  pub arbitration_deadline : ℕ

pub record Final : Type 0 where
  pub outcome : Outcome
  pub evidence_hash : Option String

-- The deadlines of a challenge, fixed when it is created.
pub record Schedule : Type 0 where
  pub acceptance_deadline : ℕ
  pub observation_time : ℕ
  pub source_correction_cutoff : ℕ
  pub proposal_deadline : ℕ
  pub dispute_window : ℕ
  pub arbitration_window : ℕ
  pub timeout_void_at : ℕ

pub record Challenge : Type 0 where
  pub id : String
  pub challenger : String
  pub acceptor : Option String
  pub challenger_side : Side
  pub stake : ℕ
  pub state : State
  pub acceptance_nonce : ℕ
  pub deposited : ℕ
  pub outstanding : ℕ
  pub paid : Paid
  pub schedule : Schedule
  pub proposal : Option Proposal
  pub dispute : Option Dispute
  pub final : Option Final
  pub entitlements : Dict Entitlement

-- `class ChallengeModel`
pub record Model : Type 0 where
  pub resolver : String
  pub arbiter : String
  pub pauser : String
  pub paused : Bool
  pub total_outstanding_liability : ℕ
  pub challenges : Dict Challenge
  pub used_nonces : List String

-- What `snapshot` shows: the roles and the used nonces are not in it.
pub record Snapshot : Type 0 where
  pub paused : Bool
  pub total_outstanding_liability : ℕ
  pub challenges : List Challenge

pub record Create : Type 0 where
  pub id : String
  pub nonce : String
  pub caller : String
  pub challenger : String
  pub challenger_side : Side
  pub stake : ℕ
  pub now : ℕ
  pub schedule : Schedule

pub record Accept : Type 0 where
  pub id : String
  pub caller : String
  pub acceptor : String
  pub permit_nonce : ℕ
  pub permit_valid : Bool
  pub expires_at : ℕ
  pub now : ℕ

-- The outcome is `none` where the action carries no outcome of the protocol.
pub record Propose : Type 0 where
  pub id : String
  pub caller : String
  pub outcome : Option Outcome
  pub void_reason : String
  pub evidence_hash : String
  pub now : ℕ

-- The fields that `dispute` and `arbitrate` read.
pub record Answer : Type 0 where
  pub id : String
  pub caller : String
  pub outcome : Option Outcome
  pub evidence_hash : String
  pub parent_evidence_hash : String
  pub now : ℕ

-- An action, by its `type`; `other` is any type that the switch does not know.
pub data Action : Type 0 where
  warp other : Action
  pause : String → Bool → Action
  create : Create → Action
  advance_nonce cancel : String → String → ℕ → Action
  accept : Accept → Action
  expire finalize void_unproposed void_unarbitrated : String → ℕ → Action
  propose : Propose → Action
  dispute arbitrate : Answer → Action
  claim refund : String → String → Action
