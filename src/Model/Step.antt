-- ===== src/Model/Step.antt =====
-- The diagram of the escrow as a step relation on phases, with who may take a step and when.
use challenge_escrow_protoco.Prelude.{
  ℕ, ◌+◌, ◌≤◌, ◌<◌, String, ◌≡◌, Option, none, some, List, Bool, true, false, refl, tests, ltb, leb,
  not, str_eq, if◌then◌else◌, includes, ◌==◌, ◌&&◌, ◌∷◌,
}
use challenge_escrow_protoco.Model.Types.{Code, Outcome, Proposal, Dispute, Accept, Propose, Answer}
use challenge_escrow_protoco.Model.Exec.{Result, ok, rejected}
use challenge_escrow_protoco.Model.Phase.{Terms, Phase, Course, Verdict}
use challenge_escrow_protoco.Model.Spec
use challenge_escrow_protoco.Model.Spec.{
  conclude, proposed_course, disputed_course, silent_course, ◌orelse◌then◌, propose_outcome,
  dispute_outcome, arbitrate_outcome,
}

pub data Step (t : Terms) : Phase → Phase → Type 0 where
  advance :
      (n now : ℕ)
      → now < t.schedule.acceptance_deadline
      → Step t (Phase.opened n) (Phase.opened (n + 1))
  accept :
      (n now : ℕ) (a : String)
      → now < t.schedule.acceptance_deadline
      → Step t (Phase.opened n) (Phase.active n a)
  cancel :
      (n now : ℕ)
      → now < t.schedule.acceptance_deadline
      → Step t (Phase.opened n) (Phase.cancelled n false)
  expire :
      (n now : ℕ)
      → t.schedule.acceptance_deadline ≤ now
      → Step t (Phase.opened n) (Phase.expired n false)
  propose :
      (n : ℕ) (a : String) (p : Proposal)
      → t.schedule.observation_time ≤ p.proposed_at
      → p.proposed_at < t.schedule.proposal_deadline
      → Step t (Phase.active n a) (Phase.proposed n a p)
  dispute :
      (n : ℕ) (a : String) (p : Proposal) (d : Dispute)
      → d.disputed_at < p.dispute_deadline
      → Step t (Phase.proposed n a p) (Phase.disputed n a p d)
  finalize :
      (n now : ℕ) (a : String) (p : Proposal)
      → p.dispute_deadline ≤ now
      → Step t
          (Phase.proposed n a p)
          (conclude (proposed_course n a p) p.outcome (some p.evidence_hash))
  arbitrate :
      (n now : ℕ) (a : String) (p : Proposal) (d : Dispute) (o : Outcome) (e : String)
      → now < d.arbitration_deadline
      → Step t (Phase.disputed n a p d) (conclude (disputed_course n a p d) o (some e))
  time_out :
      (n now : ℕ) (a : String)
      → t.schedule.proposal_deadline ≤ now
      → Step t (Phase.active n a) (Phase.void (silent_course n a) none false false)
  time_out_dispute :
      (n now : ℕ) (a : String) (p : Proposal) (d : Dispute)
      → d.arbitration_deadline ≤ now
      → Step t (Phase.disputed n a p d) (Phase.void (disputed_course n a p d) none false false)
  claim :
      (k : Course) (v : Verdict) (e : Option String)
      → Step t (Phase.resolved k v e false) (Phase.resolved k v e true)
  refund_cancelled : (n : ℕ) → Step t (Phase.cancelled n false) (Phase.cancelled n true)
  refund_expired : (n : ℕ) → Step t (Phase.expired n false) (Phase.expired n true)
  refund_challenger :
      (k : Course) (e : Option String) (paid : Bool)
      → Step t (Phase.void k e false paid) (Phase.void k e true paid)
  refund_acceptor :
      (k : Course) (e : Option String) (paid : Bool)
      → Step t (Phase.void k e paid false) (Phase.void k e paid true)

-- An abstract result is a step, or a rejection.
pub data Steps (t : Terms) (ph : Phase) : Result Phase → Type 0 where
  steps : {next : Phase} → Step t ph next → Steps t ph (ok next)
  refuses : {c : Code} → Steps t ph (rejected c)

module _ (t : Terms) where
  -- A guard whose condition is used, and one whose condition is not.
  tested :
      (b : Bool) (c : Code) {ph : Phase} {r : Result Phase}
      → (b ≡ true → Steps t ph r)
      → Steps t ph (b orelse c then r)
  tested true c h = h refl
  tested false c h = refuses

  passed :
      (b : Bool) (c : Code) {ph : Phase} {r : Result Phase}
      → Steps t ph r
      → Steps t ph (b orelse c then r)
  passed b c h = tested b c (λ _. h)

  pub advance_nonce-Steps :
      (ph : Phase) (caller : String) (now : ℕ) → Steps t ph (Spec.advance_nonce t ph caller now)
  unfolding Spec.advance_nonce
  advance_nonce-Steps (Phase.opened n) caller now = passed _ _ (
      tested (ltb now t.schedule.acceptance_deadline) _
        λ early. steps (advance n now (omega tests)))
  advance_nonce-Steps _ caller now = refuses

  pub cancel-Steps :
      (ph : Phase) (caller : String) (now : ℕ) → Steps t ph (Spec.cancel t ph caller now)
  unfolding Spec.cancel
  cancel-Steps (Phase.opened n) caller now = passed _ _ (
      tested (ltb now t.schedule.acceptance_deadline) _ λ early. steps (cancel n now (omega tests)))
  cancel-Steps _ caller now = refuses

  pub expire-Steps : (ph : Phase) (now : ℕ) → Steps t ph (Spec.expire t ph now)
  unfolding Spec.expire
  expire-Steps (Phase.opened n) now =
      tested (leb t.schedule.acceptance_deadline now) _ λ late. steps (expire n now (omega tests))
  expire-Steps _ now = refuses

  pub accept-Steps :
      (roles : List String) (ph : Phase) (a : Accept) → Steps t ph (Spec.accept roles t ph a)
  unfolding Spec.accept
  accept-Steps roles (Phase.opened n) a =
      tested (ltb a.now t.schedule.acceptance_deadline) _ λ early.
        passed (str_eq a.caller a.acceptor) _ (
          passed (not (includes ("" ∷ t.challenger ∷ roles) a.acceptor)) _ (
            passed (a.permit_nonce == n) _ (
              passed
                (a.permit_valid
                  && ltb a.now a.expires_at
                  && leb a.expires_at t.schedule.acceptance_deadline)
                _ (steps (accept n a.now a.acceptor (omega tests))))))
  accept-Steps roles _ a = refuses

  proposed-Steps :
      (n : ℕ) (a : String) (x : Propose) (o : Option Outcome)
      → t.schedule.observation_time ≤ x.now
      → x.now < t.schedule.proposal_deadline
      → Steps t (Phase.active n a) (propose_outcome t n a x o)
  proposed-Steps n a x none late early = refuses
  proposed-Steps n a x (some o) late early = passed _ _ (steps (propose n a _ late early))

  pub propose-Steps :
      (resolver : String) (ph : Phase) (x : Propose) → Steps t ph (Spec.propose resolver t ph x)
  unfolding Spec.propose
  propose-Steps resolver (Phase.active n a) x = passed _ _ (
      tested (leb t.schedule.observation_time x.now) _ λ late.
        tested (ltb x.now t.schedule.proposal_deadline) _
          λ early. passed _ _ (proposed-Steps n a x x.outcome (omega tests) (omega tests)))
  propose-Steps resolver _ x = refuses

  disputed-Steps :
      (n : ℕ) (a : String) (p : Proposal) (x : Answer) (o : Option Outcome)
      → x.now < p.dispute_deadline
      → Steps t (Phase.proposed n a p) (dispute_outcome t n a p x o)
  disputed-Steps n a p x none early = refuses
  disputed-Steps n a p x (some o) early = passed _ _ (passed _ _ (steps (dispute n a p _ early)))

  pub dispute-Steps : (ph : Phase) (x : Answer) → Steps t ph (Spec.dispute t ph x)
  unfolding Spec.dispute
  dispute-Steps (Phase.proposed n a p) x = passed _ _ (
      tested (ltb x.now p.dispute_deadline) _
        λ early. disputed-Steps n a p x x.outcome (omega tests))
  dispute-Steps _ x = refuses

  pub finalize-Steps : (ph : Phase) (now : ℕ) → Steps t ph (Spec.finalize t ph now)
  unfolding Spec.finalize
  finalize-Steps (Phase.proposed n a p) now =
      tested (leb p.dispute_deadline now) _ λ late. steps (finalize n now a p (omega tests))
  finalize-Steps _ now = refuses

  arbitrated-Steps :
      (n : ℕ) (a : String) (p : Proposal) (d : Dispute) (x : Answer) (o : Option Outcome)
      → x.now < d.arbitration_deadline
      → Steps t (Phase.disputed n a p d) (arbitrate_outcome n a p d x o)
  arbitrated-Steps n a p d x none early = refuses
  arbitrated-Steps n a p d x (some o) early =
      steps (arbitrate n x.now a p d o x.evidence_hash early)

  pub arbitrate-Steps :
      (arbiter : String) (ph : Phase) (x : Answer) → Steps t ph (Spec.arbitrate arbiter t ph x)
  unfolding Spec.arbitrate
  arbitrate-Steps arbiter (Phase.disputed n a p d) x = passed _ _ (
      passed _ _ (
        tested (ltb x.now d.arbitration_deadline) _
          λ early. passed _ _ (arbitrated-Steps n a p d x x.outcome (omega tests))))
  arbitrate-Steps arbiter _ x = refuses

  pub void_unproposed-Steps : (ph : Phase) (now : ℕ) → Steps t ph (Spec.void_unproposed t ph now)
  unfolding Spec.void_unproposed
  void_unproposed-Steps (Phase.active n a) now =
      tested (leb t.schedule.proposal_deadline now) _ λ late. steps (time_out n now a (omega tests))
  void_unproposed-Steps _ now = refuses

  pub void_unarbitrated-Steps :
      (ph : Phase) (now : ℕ) → Steps t ph (Spec.void_unarbitrated t ph now)
  unfolding Spec.void_unarbitrated
  void_unarbitrated-Steps (Phase.disputed n a p d) now =
      tested (leb d.arbitration_deadline now) _
        λ late. steps (time_out_dispute n now a p d (omega tests))
  void_unarbitrated-Steps _ now = refuses

  pub claim-Steps : (ph : Phase) (caller : String) → Steps t ph (Spec.claim t ph caller)
  unfolding Spec.claim
  claim-Steps (Phase.resolved k v e true) caller = passed _ _ refuses
  claim-Steps (Phase.resolved k v e false) caller = passed _ _ (steps (claim k v e))
  claim-Steps _ caller = refuses

  refunded :
      (k : Course) (e : Option String) (paid_c paid_a : Bool)
      → Steps t
          (Phase.void k e paid_c paid_a)
          (not paid_c orelse Code.invalid_entitlement then ok (Phase.void k e true paid_a))
  refunded k e true paid_a = refuses
  refunded k e false paid_a = steps (refund_challenger k e paid_a)

  refunded_acceptor :
      (k : Course) (e : Option String) (paid_c paid_a : Bool)
      → Steps t
          (Phase.void k e paid_c paid_a)
          (not paid_a orelse Code.invalid_entitlement then ok (Phase.void k e paid_c true))
  refunded_acceptor k e paid_c true = refuses
  refunded_acceptor k e paid_c false = steps (refund_acceptor k e paid_c)

  Steps-if :
      (b : Bool) {ph : Phase} {r s : Result Phase}
      → Steps t ph r
      → Steps t ph s
      → Steps t ph (if b then r else s)
  Steps-if true hr hs = hr
  Steps-if false hr hs = hs

  pub refund-Steps : (ph : Phase) (caller : String) → Steps t ph (Spec.refund t ph caller)
  unfolding Spec.refund
  refund-Steps (Phase.cancelled n true) caller = passed _ _ refuses
  refund-Steps (Phase.cancelled n false) caller = passed _ _ (steps (refund_cancelled n))
  refund-Steps (Phase.expired n true) caller = passed _ _ refuses
  refund-Steps (Phase.expired n false) caller = passed _ _ (steps (refund_expired n))
  refund-Steps (Phase.void k e paid_c paid_a) caller =
      Steps-if (str_eq caller t.challenger) (refunded k e paid_c paid_a)
        (passed (str_eq caller k.acceptor) _ (refunded_acceptor k e paid_c paid_a))
  refund-Steps _ caller = refuses
