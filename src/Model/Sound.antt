-- ===== src/Model/Sound.antt =====
-- The invariant of a challenge in the abstract specification: ordered deadlines, two participants,
-- and a proposal and a dispute inside their windows.
use challenge_escrow_protoco.Prelude.{
  ℕ, ◌+◌, ◌≤◌, ◌<◌, max, String, ◌≡◌, str_eq, false, true, arith, List, Option, none, some,
}
use challenge_escrow_protoco.Model.Types.{
  Schedule, Proposal, Dispute, Accept, Propose, Answer, Outcome, for_a, for_b, for_void,
}
use challenge_escrow_protoco.Model.Exec.{Result, ok, rejected, crashed}
use challenge_escrow_protoco.Model.Phase.{Terms, Phase, IsDistinct, Course}
use challenge_escrow_protoco.Model.Spec
use challenge_escrow_protoco.Model.Spec.{conclude, proposed_course, disputed_course, silent_course}
use challenge_escrow_protoco.Model.Refine.{barred_distinct}

pub record IsOrdered (s : Schedule) : Type 0 where
  pub acceptance : s.acceptance_deadline < s.observation_time
  pub observation : s.observation_time < s.source_correction_cutoff
  pub correction : s.source_correction_cutoff < s.proposal_deadline
  pub disputable : 0 < s.dispute_window
  pub arbitrable : 0 < s.arbitration_window
  pub corrected : s.source_correction_cutoff < s.observation_time + s.dispute_window
  pub proposal_path :
      s.proposal_deadline + s.dispute_window + s.arbitration_window ≤ s.timeout_void_at
  pub correction_path : s.source_correction_cutoff + s.arbitration_window ≤ s.timeout_void_at

pub record IsProposal (s : Schedule) (p : Proposal) : Type 0 where
  pub observed : s.observation_time ≤ p.proposed_at
  pub in_time : p.proposed_at < s.proposal_deadline
  pub window : p.dispute_deadline ≡ p.proposed_at + s.dispute_window
  pub evident : str_eq p.evidence_hash "" ≡ false

pub record IsDispute (s : Schedule) (p : Proposal) (d : Dispute) : Type 0 where
  pub in_time : d.disputed_at < p.dispute_deadline
  pub start : d.arbitration_start ≡ max d.disputed_at s.source_correction_cutoff
  pub window : d.arbitration_deadline ≡ d.arbitration_start + s.arbitration_window
  pub lineage : str_eq d.parent_evidence_hash p.evidence_hash ≡ true
  pub evident : str_eq d.evidence_hash "" ≡ false

-- What the phase remembers lies inside the windows of the schedule.
abbrev pub IsCourse : Schedule → Option Proposal → Option Dispute → Type 0
IsCourse s none none = Unit
IsCourse s none (some d) = ⊥
IsCourse s (some p) none = IsProposal s p
IsCourse s (some p) (some d) = IsProposal s p × IsDispute s p d

abbrev pub IsTimed : Schedule → Phase → Type 0
IsTimed s (Phase.proposed n a p) = IsCourse s (some p) none
IsTimed s (Phase.disputed n a p d) = IsCourse s (some p) (some d)
IsTimed s (Phase.resolved k v e paid) = IsCourse s k.proposal k.dispute
IsTimed s (Phase.void k e paid_c paid_a) = IsCourse s k.proposal k.dispute
IsTimed s _ = Unit

pub record IsSound (t : Terms) (ph : Phase) : Type 0 where
  pub ordered : IsOrdered t.schedule
  pub staked : 0 < t.stake
  pub distinct : IsDistinct t ph
  pub timed : IsTimed t.schedule ph

-- The result of an abstract step from a sound phase.
abbrev pub StaysSound : Terms → Result Phase → Type 0
StaysSound t (ok next) = IsSound t next
StaysSound t (rejected c) = Unit
StaysSound t (crashed x) = ⊥

module _ (t : Terms) where
  -- A decision keeps the course.
  conclude-IsSound :
      (k : Course) (o : Outcome) (e : Option String)
      → IsOrdered t.schedule
      → 0 < t.stake
      → str_eq t.challenger k.acceptor ≡ false
      → IsCourse t.schedule k.proposal k.dispute
      → IsSound t (conclude k o e)
  conclude-IsSound k for_a e o s d c = record { ordered = o; staked = s; distinct = d; timed = c }
  conclude-IsSound k for_b e o s d c = record { ordered = o; staked = s; distinct = d; timed = c }
  conclude-IsSound k for_void e o s d c = record {
    ordered = o;
    staked = s;
    distinct = d;
    timed = c;
  }

  pub advance_nonce-StaysSound :
      (ph : Phase) (caller : String) (now : ℕ)
      → IsSound t ph
      → StaysSound t (Spec.advance_nonce t ph caller now)
  unfolding Spec.advance_nonce
  advance_nonce-StaysSound (Phase.opened n) caller now h = ground arith
  advance_nonce-StaysSound _ caller now h = tt

  pub accept-StaysSound :
      (roles : List String) (ph : Phase) (a : Accept)
      → IsSound t ph
      → StaysSound t (Spec.accept roles t ph a)
  unfolding Spec.accept
  accept-StaysSound roles (Phase.opened n) a h =
      ground (arith, barred_distinct a.acceptor t.challenger roles)
  accept-StaysSound roles _ a h = tt

  pub cancel-StaysSound :
      (ph : Phase) (caller : String) (now : ℕ)
      → IsSound t ph
      → StaysSound t (Spec.cancel t ph caller now)
  unfolding Spec.cancel
  cancel-StaysSound (Phase.opened n) caller now h = ground arith
  cancel-StaysSound _ caller now h = tt

  pub expire-StaysSound :
      (ph : Phase) (now : ℕ) → IsSound t ph → StaysSound t (Spec.expire t ph now)
  unfolding Spec.expire
  expire-StaysSound (Phase.opened n) now h = ground arith
  expire-StaysSound _ now h = tt

  pub propose-StaysSound :
      (resolver : String) (ph : Phase) (x : Propose)
      → IsSound t ph
      → StaysSound t (Spec.propose resolver t ph x)
  unfolding Spec.propose
  propose-StaysSound resolver (Phase.active n a) x h = ground arith
  propose-StaysSound resolver _ x h = tt

  pub dispute-StaysSound :
      (ph : Phase) (x : Answer) → IsSound t ph → StaysSound t (Spec.dispute t ph x)
  unfolding Spec.dispute
  dispute-StaysSound (Phase.proposed n a p) x h = ground arith
  dispute-StaysSound _ x h = tt

  pub finalize-StaysSound :
      (ph : Phase) (now : ℕ) → IsSound t ph → StaysSound t (Spec.finalize t ph now)
  unfolding Spec.finalize
  finalize-StaysSound (Phase.proposed n a p) now h = ground (
    arith,
    conclude-IsSound (proposed_course n a p) p.outcome (some p.evidence_hash) h.ordered h.staked
        h.distinct h.timed,
  )
  finalize-StaysSound _ now h = tt

  arbitrated :
      (n : ℕ) (a : String) (p : Proposal) (d : Dispute) (o : Outcome) (e : String)
      → IsSound t (Phase.disputed n a p d)
      → IsSound t (conclude (disputed_course n a p d) o (some e))
  arbitrated n a p d o e h =
      conclude-IsSound (disputed_course n a p d) o (some e) h.ordered h.staked h.distinct h.timed

  pub arbitrate-StaysSound :
      (arbiter : String) (ph : Phase) (x : Answer)
      → IsSound t ph
      → StaysSound t (Spec.arbitrate arbiter t ph x)
  unfolding Spec.arbitrate
  arbitrate-StaysSound arbiter (Phase.disputed n a p d) x h = ground (
    arith,
    arbitrated n a p d for_a x.evidence_hash h,
    arbitrated n a p d for_b x.evidence_hash h,
    arbitrated n a p d for_void x.evidence_hash h,
  )
  arbitrate-StaysSound arbiter _ x h = tt

  pub void_unproposed-StaysSound :
      (ph : Phase) (now : ℕ) → IsSound t ph → StaysSound t (Spec.void_unproposed t ph now)
  unfolding Spec.void_unproposed
  void_unproposed-StaysSound (Phase.active n a) now h = ground arith
  void_unproposed-StaysSound _ now h = tt

  pub void_unarbitrated-StaysSound :
      (ph : Phase) (now : ℕ) → IsSound t ph → StaysSound t (Spec.void_unarbitrated t ph now)
  unfolding Spec.void_unarbitrated
  void_unarbitrated-StaysSound (Phase.disputed n a p d) now h = ground arith
  void_unarbitrated-StaysSound _ now h = tt

  pub claim-StaysSound :
      (ph : Phase) (caller : String) → IsSound t ph → StaysSound t (Spec.claim t ph caller)
  unfolding Spec.claim
  claim-StaysSound (Phase.resolved k v e paid) caller h = ground arith
  claim-StaysSound _ caller h = tt

  pub refund-StaysSound :
      (ph : Phase) (caller : String) → IsSound t ph → StaysSound t (Spec.refund t ph caller)
  unfolding Spec.refund
  refund-StaysSound (Phase.cancelled n paid) caller h = ground arith
  refund-StaysSound (Phase.expired n paid) caller h = ground arith
  refund-StaysSound (Phase.void k e paid_c paid_a) caller h = ground arith
  refund-StaysSound _ caller h = tt
