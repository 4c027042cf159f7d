-- ===== src/Tests/Escrow.antt =====
-- The theorems on the model of tools/model and on tools/liveness/sweep.mjs at concrete inputs.
use challenge_escrow_protoco.Prelude.{
  ◌+◌, ◌≤◌, ◌<◌, ◌≡◌, refl, true, false, some, none, [], ◌∷◌, lookup, includes, ltb, arith,
  if◌then◌else◌, max,
}
use challenge_escrow_protoco.Model.Types.{
  for_a, for_b, Code, Challenge, Model, Accept, Propose, Answer, Action,
}
use challenge_escrow_protoco.Model.Exec.{ok, rejected}
use challenge_escrow_protoco.Model.Opening.{create, nonce_key, accept_of, cancel_of}
use challenge_escrow_protoco.Model.Deciding.{
  propose_of, dispute_of, finalize_of, arbitrate_of, void_unproposed_of, void_unarbitrated_of,
}
use challenge_escrow_protoco.Model.Payout.{claim_of, refund_of}
use challenge_escrow_protoco.Model.Phase.{Phase, concretize}
use challenge_escrow_protoco.Model.Spec
use challenge_escrow_protoco.Model.Spec.{silent_course}
use challenge_escrow_protoco.Model.Settle.{settled, roles}
use challenge_escrow_protoco.Model.Refine.{
  stored, create-Refines, accept-Refines, cancel-Refines, propose-Refines, dispute-Refines,
  finalize-Refines, arbitrate-Refines, void_unproposed-Refines, void_unarbitrated-Refines,
  claim-Refines, refund-Refines,
}
use challenge_escrow_protoco.Model.Machine.{dispatch, apply, run}
use challenge_escrow_protoco.Model.Replies.{Replies, run-Replies}
use challenge_escrow_protoco.Model.Exit.{Exits, exit_by_timeout}
use challenge_escrow_protoco.Model.History.{Inherits, run-Inherits}
use challenge_escrow_protoco.Model.Payments.{IsAccounted, run-IsAccounted}
use challenge_escrow_protoco.Model.Drain.{IsEmptied, payouts, payouts-drain}
use challenge_escrow_protoco.Model.Pausing.{IgnoresPause, dispatch-IgnoresPause}
use challenge_escrow_protoco.Sweep.{
  valid, authority_windows, schedule, start_time, create-agrees-valid, windows_nested,
  boundary_schedule,
}
use challenge_escrow_protoco.Tests.Runs.{
  deadlines, creation, start, to_dispute, to_decision, terms, proposal, in_dispute, decided,
  disputed_found, decided_found, disputed_StaysSafe, claimed_IsSafe, disputed_IsValid,
  decided_IsValid,
}

run-Replies_example :
    Replies (run to_dispute start) (apply (Action.claim "c" "bob") (run to_dispute start))
run-Replies_example =
    run-Replies "resolver" "arbiter" "pauser" to_dispute (Action.claim "c" "bob") disputed_StaysSafe
      claimed_IsSafe

exit_by_timeout_example : Exits (run to_dispute start) "c" 200 (concretize terms in_dispute)
exit_by_timeout_example =
    exit_by_timeout (run to_dispute start) "c" (concretize terms in_dispute) 200 disputed_IsValid
      disputed_found (omega arith) refl

payouts-drain_example :
    IsEmptied
      (run
        (payouts "c" (concretize terms decided) (concretize terms decided).state)
        (run to_decision start))
      "c"
payouts-drain_example =
    payouts-drain (run to_decision start) "c" (concretize terms decided) decided_IsValid
      decided_found refl

run-Inherits_example :
    (c' : Challenge) × (lookup "c"
        (run (Action.claim "c" "bob" ∷ []) (run to_decision start)).challenges
      ≡ some c')
    × Inherits (concretize terms decided) c'
run-Inherits_example =
    run-Inherits (Action.claim "c" "bob" ∷ []) (run to_decision start) "c"
      (concretize terms decided) decided_IsValid.entries decided_found

run-IsAccounted_example : IsAccounted (concretize terms decided)
run-IsAccounted_example =
    run-IsAccounted "resolver" "arbiter" "pauser" to_decision "c" (concretize terms decided)
      decided_found

dispatch-IgnoresPause_example : IgnoresPause (dispatch (Action.claim "c" "bob"))
dispatch-IgnoresPause_example = dispatch-IgnoresPause (Action.claim "c" "bob") refl

create-Refines_example :
    create creation start
    ≡ stored start creation (Spec.create false false (includes [] (nonce_key creation)) creation)
create-Refines_example = create-Refines start creation

abbrev acceptance : Accept
acceptance = record {
  id = "c";
  caller = "bob";
  acceptor = "bob";
  permit_nonce = 0;
  permit_valid = true;
  expires_at = 109;
  now = 101;
}

accept-Refines_example :
    accept_of (concretize terms (Phase.opened 0)) acceptance start
    ≡ settled start "c" terms
        (Phase.opened 0)
        (Spec.accept (roles start) terms (Phase.opened 0) acceptance)
accept-Refines_example = accept-Refines start terms (Phase.opened 0) acceptance

cancel-Refines_example :
    cancel_of (concretize terms (Phase.opened 0)) "c" "alice" 105 start
    ≡ settled start "c" terms (Phase.opened 0) (Spec.cancel terms (Phase.opened 0) "alice" 105)
cancel-Refines_example = cancel-Refines start "c" terms (Phase.opened 0) "alice" 105

abbrev assertion : Propose
assertion = record {
  id = "c";
  caller = "resolver";
  outcome = some for_a;
  void_reason = "";
  evidence_hash = "p";
  now = 120;
}

propose-Refines_example :
    propose_of (concretize terms (Phase.active 0 "bob")) assertion start
    ≡ settled start "c" terms
        (Phase.active 0 "bob")
        (Spec.propose "resolver" terms (Phase.active 0 "bob") assertion)
propose-Refines_example = propose-Refines start terms (Phase.active 0 "bob") assertion

abbrev objection : Answer
objection = record {
  id = "c";
  caller = "bob";
  outcome = some for_b;
  evidence_hash = "d";
  parent_evidence_hash = "p";
  now = 121;
}

dispute-Refines_example :
    dispute_of (concretize terms (Phase.proposed 0 "bob" proposal)) objection start
    ≡ settled start "c" terms
        (Phase.proposed 0 "bob" proposal)
        (Spec.dispute terms (Phase.proposed 0 "bob" proposal) objection)
dispute-Refines_example = dispute-Refines start terms (Phase.proposed 0 "bob" proposal) objection

finalize-Refines_example :
    finalize_of (concretize terms (Phase.proposed 0 "bob" proposal)) "c" 130 start
    ≡ settled start "c" terms
        (Phase.proposed 0 "bob" proposal)
        (Spec.finalize terms (Phase.proposed 0 "bob" proposal) 130)
finalize-Refines_example =
    finalize-Refines start "c" terms (Phase.proposed 0 "bob" proposal) 130 refl

abbrev ruling : Answer
ruling = record {
  id = "c";
  caller = "arbiter";
  outcome = some for_b;
  evidence_hash = "f";
  parent_evidence_hash = "d";
  now = 125;
}

arbitrate-Refines_example :
    arbitrate_of (concretize terms in_dispute) ruling start
    ≡ settled start "c" terms in_dispute (Spec.arbitrate "arbiter" terms in_dispute ruling)
arbitrate-Refines_example = arbitrate-Refines start "c" terms in_dispute ruling refl refl

void_unproposed-Refines_example :
    void_unproposed_of (concretize terms (Phase.active 0 "bob")) "c" 150 start
    ≡ settled start "c" terms
        (Phase.active 0 "bob")
        (Spec.void_unproposed terms (Phase.active 0 "bob") 150)
void_unproposed-Refines_example =
    void_unproposed-Refines start "c" terms (Phase.active 0 "bob") 150 refl

void_unarbitrated-Refines_example :
    void_unarbitrated_of (concretize terms in_dispute) "c" 145 start
    ≡ settled start "c" terms in_dispute (Spec.void_unarbitrated terms in_dispute 145)
void_unarbitrated-Refines_example = void_unarbitrated-Refines start "c" terms in_dispute 145 refl

abbrev funded : Model
funded = record start { total_outstanding_liability = 200 }

claim-Refines_example :
    claim_of (concretize terms decided) "c" "bob" funded
    ≡ settled funded "c" terms decided (Spec.claim terms decided "bob")
claim-Refines_example =
    claim-Refines funded "c" terms (omega arith) decided "bob" refl (omega arith)

abbrev voided : Phase
voided = Phase.void (silent_course 0 "bob") none false false

refund-Refines_example :
    refund_of (concretize terms voided) "c" "bob" funded
    ≡ settled funded "c" terms voided (Spec.refund terms voided "bob")
refund-Refines_example =
    refund-Refines funded "c" terms (omega arith) voided "bob" refl (omega arith)

create-agrees-valid_example :
    (create creation start).0
    ≡ (if valid 100 deadlines then ok tt else rejected Code.invalid_deadlines)
create-agrees-valid_example =
    create-agrees-valid start creation refl refl (unfold includes in refl) refl refl refl refl

windows_nested_example :
    let w = authority_windows 100 deadlines in
    (0 < w.challenger_open_exit)
    × (w.challenger_open_exit < w.resolver_silence)
    × (w.resolver_silence < w.arbiter_silence)
    × (w.arbiter_silence + w.timeout_slack ≤ w.protocol_bound)
    × (100 + w.protocol_bound ≡ max 180 145 + w.timeout_slack)
windows_nested_example = windows_nested 100 deadlines (unfold valid in refl)

boundary_schedule_example :
    let s = schedule (λ k. k + 7) true in
    (valid start_time s ≡ ltb 1 s.dispute_window)
    × ((authority_windows start_time s).timeout_slack ≡ 0)
boundary_schedule_example = boundary_schedule (λ k. k + 7)
