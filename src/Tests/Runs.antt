-- ===== src/Tests/Runs.antt =====
-- The model of tools/model on the life of one challenge: created, accepted, proposed, disputed.
use challenge_escrow_protoco.Prelude.{
  arith, ◌≡◌, refl, true, false, some, List, [], ◌∷◌, ◌++◌, lookup, includes, String-discrete,
  Bool-cases, ℕ_discrete,
}
use challenge_escrow_protoco.Model.Doubles.{double}
use challenge_escrow_protoco.Model.Types.{
  side_a, for_a, for_b, Schedule, Create, Model, Action, Code, Proposal, Dispute,
}
use challenge_escrow_protoco.Model.Opening.{create, accept, accept_of}
use challenge_escrow_protoco.Model.Deciding.{
  propose, propose_of, dispute, dispute_of, arbitrate, arbitrate_of, set_final,
}
use challenge_escrow_protoco.Model.Payout.{claim, claim_of}
use challenge_escrow_protoco.Model.Phase.{Terms, Phase, b_won, concretize}
use challenge_escrow_protoco.Model.Spec.{disputed_course}
use challenge_escrow_protoco.Model.Invariant.{IsSafe, IsValid}
use challenge_escrow_protoco.Model.Machine.{
  refused, snapshot, Snapshot-discrete, dispatch, apply, new, run,
}
use challenge_escrow_protoco.Model.Replies.{StaysSafe, run-IsValid, new-IsValid}

abbrev pub deadlines : Schedule
deadlines = record {
  acceptance_deadline = 110;
  observation_time = 120;
  source_correction_cutoff = 125;
  proposal_deadline = 150;
  dispute_window = 10;
  arbitration_window = 20;
  timeout_void_at = 200;
}

abbrev pub creation : Create
creation = record {
  id = "c";
  nonce = "n";
  caller = "alice";
  challenger = "alice";
  challenger_side = side_a;
  stake = 100;
  now = 100;
  schedule = deadlines;
}

abbrev pub start : Model
start = new "resolver" "arbiter" "pauser"

abbrev pub to_dispute : List Action
to_dispute =
    Action.create creation
    ∷ Action.accept (record {
      id = "c";
      caller = "bob";
      acceptor = "bob";
      permit_nonce = 0;
      permit_valid = true;
      expires_at = 109;
      now = 101;
    })
    ∷ Action.propose (record {
      id = "c";
      caller = "resolver";
      outcome = some for_a;
      void_reason = "";
      evidence_hash = "p";
      now = 120;
    })
    ∷ Action.dispute (record {
      id = "c";
      caller = "bob";
      outcome = some for_b;
      evidence_hash = "d";
      parent_evidence_hash = "p";
      now = 121;
    })
    ∷ []

abbrev pub to_decision : List Action
to_decision =
    to_dispute
    ++ Action.arbitrate (record {
      id = "c";
      caller = "arbiter";
      outcome = some for_b;
      evidence_hash = "f";
      parent_evidence_hash = "d";
      now = 125;
    })
      ∷ []

abbrev pub terms : Terms
terms = record {
  id = "c";
  challenger = "alice";
  challenger_side = side_a;
  stake = 100;
  schedule = deadlines;
}

abbrev pub proposal : Proposal
proposal = record {
  outcome = for_a;
  evidence_hash = "p";
  proposed_at = 120;
  dispute_deadline = 130;
}

abbrev pub answer : Dispute
answer = record {
  outcome = for_b;
  evidence_hash = "d";
  parent_evidence_hash = "p";
  disputed_at = 121;
  arbitration_start = 125;
  arbitration_deadline = 145;
}

abbrev pub in_dispute : Phase
in_dispute = Phase.disputed 0 "bob" proposal answer

abbrev pub decided : Phase
decided = Phase.resolved (disputed_course 0 "bob" proposal answer) b_won (some "f") false

pub disputed_found :
    lookup "c" (run to_dispute start).challenges ≡ some (concretize terms in_dispute)
unfolding run apply dispatch create accept accept_of propose propose_of dispute dispute_of includes
disputed_found = refl

pub decided_found : lookup "c" (run to_decision start).challenges ≡ some (concretize terms decided)
unfolding run apply dispatch create accept accept_of propose propose_of dispute dispute_of arbitrate
    arbitrate_of set_final includes
decided_found = refl

pub disputed_StaysSafe : StaysSafe to_dispute start
unfolding apply dispatch create accept accept_of propose propose_of dispute dispute_of includes
disputed_StaysSafe = (omega arith, (omega arith, (omega arith, (omega arith, tt))))

pub decided_StaysSafe : StaysSafe to_decision start
unfolding apply dispatch create accept accept_of propose propose_of dispute dispute_of arbitrate
    arbitrate_of set_final includes
decided_StaysSafe = (omega arith, (omega arith, (omega arith, (omega arith, (omega arith, tt)))))

pub claimed_IsSafe : IsSafe (apply (Action.claim "c" "bob") (run to_dispute start)).1
unfolding run apply dispatch create accept accept_of propose propose_of dispute dispute_of claim
    claim_of includes
claimed_IsSafe = omega arith

pub disputed_IsValid : IsValid (run to_dispute start)
disputed_IsValid =
    run-IsValid to_dispute start (new-IsValid "resolver" "arbiter" "pauser") disputed_StaysSafe

pub decided_IsValid : IsValid (run to_decision start)
decided_IsValid =
    run-IsValid to_decision start (new-IsValid "resolver" "arbiter" "pauser") decided_StaysSafe

-- The acceptor wins the arbitration and claims both stakes.
outstanding_after_claim :
    (run (Action.claim "c" "bob" ∷ []) (run to_decision start)).total_outstanding_liability ≡ 0
unfolding run apply dispatch create accept accept_of propose propose_of dispute dispute_of arbitrate
    arbitrate_of set_final claim claim_of includes double
outstanding_after_claim = refl

-- A second claim is refused.
second_claim_refused :
    let m = run (Action.claim "c" "bob" ∷ []) (run to_decision start) in
    apply (Action.claim "c" "bob") m ≡ (refused Code.invalid_entitlement (snapshot m), m)
unfolding run apply dispatch create accept accept_of propose propose_of dispute dispute_of arbitrate
    arbitrate_of set_final claim claim_of includes Snapshot-discrete String-discrete ℕ_discrete
    Bool-cases double
second_claim_refused = refl
