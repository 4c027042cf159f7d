-- ===== src/Model/Spec.antt =====
-- The abstract specification of the escrow: how each action moves a challenge from phase to phase.
use challenge_escrow_protoco.Prelude.{
  ℕ, ◌+◌, ◌*◌, max, String, Bool, true, false, not, ◌&&◌, ◌||◌, Option, none, some, List, ◌∷◌,
  includes, str_eq, ltb, leb, ◌==◌, if◌then◌else◌,
}
use challenge_escrow_protoco.Model.Types.{
  Outcome, for_a, for_b, for_void, Proposal, Dispute, Code, Schedule, Create, Accept, Propose,
  Answer,
}
use challenge_escrow_protoco.Model.Exec.{Result, ok, rejected}
use challenge_escrow_protoco.Model.Doubles.{max_safe_integer}
use challenge_escrow_protoco.Model.Shared.{outcome_eq}
use challenge_escrow_protoco.Model.Phase.{
  Terms, Verdict, a_won, b_won, Course, Phase, won_by_challenger,
}

-- A condition that must hold, or the rejection.
infix 2 ◌orelse◌then◌
abbrev pub ◌orelse◌then◌ : Bool → Code → Result Phase → Result Phase
b orelse c then r = if b then r else rejected c

-- The phase that an outcome leads to.
abbrev pub conclude : Course → Outcome → Option String → Phase
conclude k for_a e = Phase.resolved k a_won e false
conclude k for_b e = Phase.resolved k b_won e false
conclude k for_void e = Phase.void k e false false

unfoldable pub advance_nonce : Terms → Phase → String → ℕ → Result Phase
advance_nonce t (Phase.opened n) caller now =
    str_eq caller t.challenger orelse Code.caller_not_challenger then (
      ltb now t.schedule.acceptance_deadline
      orelse Code.acceptance_window_closed then ok (Phase.opened (n + 1)))
advance_nonce t _ caller now = rejected Code.challenge_not_open

unfoldable pub accept : List String → Terms → Phase → Accept → Result Phase
accept roles t (Phase.opened n) a =
    ltb a.now t.schedule.acceptance_deadline orelse Code.acceptance_window_closed then (
      str_eq a.caller a.acceptor orelse Code.caller_not_accepting_wallet then (
        not (includes ("" ∷ t.challenger ∷ roles) a.acceptor)
        orelse Code.invalid_accepting_wallet then (
            a.permit_nonce == n orelse Code.permit_nonce_mismatch then (
              (a.permit_valid
                && ltb a.now a.expires_at
                && leb a.expires_at t.schedule.acceptance_deadline)
              orelse Code.invalid_permit then ok (Phase.active n a.acceptor)))))
accept roles t _ a = rejected Code.challenge_not_open

unfoldable pub cancel : Terms → Phase → String → ℕ → Result Phase
cancel t (Phase.opened n) caller now =
    str_eq caller t.challenger orelse Code.caller_not_challenger then (
      ltb now t.schedule.acceptance_deadline
      orelse Code.acceptance_window_closed then ok (Phase.cancelled n false))
cancel t _ caller now = rejected Code.challenge_not_open

unfoldable pub expire : Terms → Phase → ℕ → Result Phase
expire t (Phase.opened n) now =
    leb t.schedule.acceptance_deadline now
    orelse Code.acceptance_window_open then ok (Phase.expired n false)
expire t _ now = rejected Code.challenge_not_open

abbrev pub propose_outcome : Terms → ℕ → String → Propose → Option Outcome → Result Phase
propose_outcome t n a x none = rejected Code.invalid_proposal
propose_outcome t n a x (some o) =
    (not (outcome_eq o for_void)
      || str_eq x.void_reason "TERMS_UNRESOLVABLE"
      || leb t.schedule.source_correction_cutoff x.now)
    orelse Code.source_correction_cutoff_not_reached then
      ok (
        Phase.proposed n a (record {
          outcome = o;
          evidence_hash = x.evidence_hash;
          proposed_at = x.now;
          dispute_deadline = x.now + t.schedule.dispute_window;
        }))

unfoldable pub propose : String → Terms → Phase → Propose → Result Phase
propose resolver t (Phase.active n a) x =
    str_eq x.caller resolver orelse Code.caller_not_resolver then (
      leb t.schedule.observation_time x.now orelse Code.observation_not_reached then (
        ltb x.now t.schedule.proposal_deadline orelse Code.proposal_window_closed then (
          not (str_eq x.evidence_hash "")
          orelse Code.invalid_proposal then propose_outcome t n a x x.outcome)))
propose resolver t _ x = rejected Code.challenge_not_active

abbrev pub dispute_outcome : Terms → ℕ → String → Proposal → Answer → Option Outcome → Result Phase
dispute_outcome t n a p x none = rejected Code.invalid_dispute
dispute_outcome t n a p x (some o) = not (outcome_eq o p.outcome) orelse Code.invalid_dispute then (
    (not (str_eq x.evidence_hash "") && str_eq x.parent_evidence_hash p.evidence_hash)
    orelse Code.invalid_evidence_lineage then
      ok (
        Phase.disputed n a p (record {
          outcome = o;
          evidence_hash = x.evidence_hash;
          parent_evidence_hash = x.parent_evidence_hash;
          disputed_at = x.now;
          arbitration_start = max x.now t.schedule.source_correction_cutoff;
          arbitration_deadline =
              max x.now t.schedule.source_correction_cutoff + t.schedule.arbitration_window;
        })))

unfoldable pub dispute : Terms → Phase → Answer → Result Phase
dispute t (Phase.proposed n a p) x =
    (str_eq x.caller t.challenger || str_eq x.caller a) orelse Code.caller_not_participant then (
      ltb x.now p.dispute_deadline
      orelse Code.dispute_window_closed then dispute_outcome t n a p x x.outcome)
dispute t _ x = rejected Code.challenge_not_proposed

abbrev pub proposed_course : ℕ → String → Proposal → Course
proposed_course n a p = record { nonce = n; acceptor = a; proposal = some p; dispute = none }

abbrev pub disputed_course : ℕ → String → Proposal → Dispute → Course
disputed_course n a p d = record { nonce = n; acceptor = a; proposal = some p; dispute = some d }

abbrev pub silent_course : ℕ → String → Course
silent_course n a = record { nonce = n; acceptor = a; proposal = none; dispute = none }

unfoldable pub finalize : Terms → Phase → ℕ → Result Phase
finalize t (Phase.proposed n a p) now =
    leb p.dispute_deadline now
    orelse Code.dispute_deadline_not_reached then
      ok (conclude (proposed_course n a p) p.outcome (some p.evidence_hash))
finalize t _ now = rejected Code.challenge_not_proposed

abbrev pub arbitrate_outcome :
    ℕ → String → Proposal → Dispute → Answer → Option Outcome → Result Phase
arbitrate_outcome n a p d x none = rejected Code.invalid_evidence_lineage
arbitrate_outcome n a p d x (some o) =
    ok (conclude (disputed_course n a p d) o (some x.evidence_hash))

unfoldable pub arbitrate : String → Terms → Phase → Answer → Result Phase
arbitrate arbiter t (Phase.disputed n a p d) x =
    str_eq x.caller arbiter orelse Code.caller_not_arbiter then (
      leb t.schedule.source_correction_cutoff x.now
      orelse Code.source_correction_cutoff_not_reached then (
          ltb x.now d.arbitration_deadline orelse Code.arbitration_window_closed then (
            (not (str_eq x.evidence_hash "") && str_eq x.parent_evidence_hash d.evidence_hash)
            orelse Code.invalid_evidence_lineage then arbitrate_outcome n a p d x x.outcome)))
arbitrate arbiter t _ x = rejected Code.challenge_not_disputed

unfoldable pub void_unproposed : Terms → Phase → ℕ → Result Phase
void_unproposed t (Phase.active n a) now =
    leb t.schedule.proposal_deadline now
    orelse Code.proposal_deadline_not_reached then
      ok (Phase.void (silent_course n a) none false false)
void_unproposed t _ now = rejected Code.challenge_not_active

unfoldable pub void_unarbitrated : Terms → Phase → ℕ → Result Phase
void_unarbitrated t (Phase.disputed n a p d) now =
    leb d.arbitration_deadline now
    orelse Code.arbitration_deadline_not_reached then
      ok (Phase.void (disputed_course n a p d) none false false)
void_unarbitrated t _ now = rejected Code.challenge_not_disputed

abbrev pub winner_of : Terms → Course → Verdict → String
winner_of t k v = if won_by_challenger t v then t.challenger else k.acceptor

unfoldable pub claim : Terms → Phase → String → Result Phase
claim t (Phase.resolved k v e paid) caller =
    str_eq caller (winner_of t k v)
    orelse Code.caller_not_winning_wallet then
      (not paid orelse Code.invalid_entitlement then ok (Phase.resolved k v e true))
claim t _ caller = rejected Code.challenge_not_resolved

unfoldable pub refund : Terms → Phase → String → Result Phase
refund t (Phase.cancelled n paid) caller =
    str_eq caller t.challenger
    orelse Code.caller_not_refund_recipient then
      (not paid orelse Code.invalid_entitlement then ok (Phase.cancelled n true))
refund t (Phase.expired n paid) caller =
    str_eq caller t.challenger
    orelse Code.caller_not_refund_recipient then
      (not paid orelse Code.invalid_entitlement then ok (Phase.expired n true))
refund t (Phase.void k e paid_c paid_a) caller =
    if str_eq caller t.challenger then (not paid_c
        orelse Code.invalid_entitlement then ok (Phase.void k e true paid_a))
      else
      (str_eq caller k.acceptor
        orelse Code.caller_not_refund_recipient then
          (not paid_a orelse Code.invalid_entitlement then ok (Phase.void k e paid_c true)))
refund t _ caller = rejected Code.challenge_not_refundable

-- The deadlines that `create` admits at a time.
abbrev pub admits : ℕ → Schedule → Bool
admits now s =
    ltb now s.acceptance_deadline
    && ltb s.acceptance_deadline s.observation_time
    && ltb s.observation_time s.source_correction_cutoff
    && ltb s.source_correction_cutoff s.proposal_deadline
    && ltb 0 s.dispute_window
    && ltb 0 s.arbitration_window
    && ltb s.source_correction_cutoff (s.observation_time + s.dispute_window)
    && leb (s.proposal_deadline + s.dispute_window + s.arbitration_window) s.timeout_void_at
    && leb (s.source_correction_cutoff + s.arbitration_window) s.timeout_void_at

abbrev pub terms_of : Create → Terms
terms_of a = record {
  id = a.id;
  challenger = a.challenger;
  challenger_side = a.challenger_side;
  stake = a.stake;
  schedule = a.schedule;
}

-- A new challenge, where `known` says that its identifier is taken, and `used` its nonce.
unfoldable pub create : Bool → Bool → Bool → Create → Result Phase
create paused known used a = not paused orelse Code.contract_paused then (
    not known orelse Code.challenge_already_exists then (
      not used orelse Code.instance_nonce_already_used then (
        str_eq a.caller a.challenger orelse Code.caller_not_challenger then (
          (not (str_eq a.nonce "") && ltb 0 a.stake && leb (a.stake * 2) max_safe_integer)
          orelse Code.invalid_execution then
            (admits a.now a.schedule orelse Code.invalid_deadlines then ok (Phase.opened 0))))))
