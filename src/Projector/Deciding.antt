-- ===== src/Projector/Deciding.antt =====
-- tools/client/projector.ts: the handlers of a proposal and of a dispute. Where the source compares
-- `disputeDeadline - disputeWindowSeconds` with the cutoff, the sum is compared: the difference of the
-- source may be negative.
use challenge_escrow_protoco.Prelude.{
  ℕ, ◌+◌, ◌==◌, String, Bool, true, not, ◌&&◌, ◌||◌, Option, none, some, [], ◌∷◌, ◌++◌, holds_text,
  str_eq, ltb, leb, if◌then◌else◌,
}
use challenge_escrow_protoco.Model.Types.{active, proposed, for_void}
use challenge_escrow_protoco.Events.Types.{
  outcome_proposed, outcome_disputed, ReleaseDeclared, ChallengeCreated, OutcomeProposed,
  OutcomeDisputed,
}
use challenge_escrow_protoco.Projector.Types.{invalid_transition, MutableChallenge, Verdict}
use challenge_escrow_protoco.Projector.Shared.{
  is_state, is_outcome, holds_outcome, lacks_role, anomalous, follow, push_new,
}

unfoldable pub proposal_mismatch :
    Option ReleaseDeclared → ChallengeCreated → OutcomeProposed → Bool
proposal_mismatch release t e =
    lacks_role (λ r. r.resolver) e.resolver release
    || (ltb e.dispute_deadline (t.observation_time + t.dispute_window_seconds)
        || (leb (t.proposal_deadline + t.dispute_window_seconds) e.dispute_deadline
            || (is_outcome e.asserted_outcome for_void
                && (not (e.reason_code == 5)
                    && ltb e.dispute_deadline
                        (t.source_correction_cutoff + t.dispute_window_seconds)))))

-- `OutcomeProposed`
unfoldable pub on_proposed : Option ReleaseDeclared → MutableChallenge → OutcomeProposed → Verdict
unfolding is_state follow proposal_mismatch
on_proposed release c e =
    if is_state c.state active
    then (if proposal_mismatch release c.created_event e
        then anomalous invalid_transition c
        else follow outcome_proposed (record c {
          proposal_evidence_hash = some e.evidence_hash;
          proposal_outcome = some e.asserted_outcome;
          proposal_reason_code = some e.reason_code;
          proposal_dispute_deadline = some e.dispute_deadline;
          evidence_hashes = c.evidence_hashes ++ (e.evidence_hash ∷ []);
        }))
    else follow outcome_proposed c

abbrev past_deadline : ℕ → Option ℕ → Bool
past_deadline start none = true
past_deadline start (some deadline) = leb deadline start

-- The disputing wallet is neither participant, or nobody has accepted.
abbrev no_participant : String → String → Option String → Bool
no_participant wallet challenger none = true
no_participant wallet challenger (some acceptor) =
    not (str_eq challenger wallet) && not (str_eq acceptor wallet)

unfoldable pub dispute_mismatch : MutableChallenge → OutcomeDisputed → Bool
dispute_mismatch c e =
    no_participant e.disputing_wallet c.created_event.challenger_wallet c.accepting_wallet
    || (not (holds_text e.parent_evidence_hash c.proposal_evidence_hash)
        || (holds_outcome e.asserted_outcome c.proposal_outcome
            || (ltb e.arbitration_start c.created_event.source_correction_cutoff
                || (past_deadline e.arbitration_start c.proposal_dispute_deadline
                    || not (
                        e.arbitration_deadline
                        == e.arbitration_start + c.created_event.arbitration_window_seconds)))))

-- `OutcomeDisputed`
unfoldable pub on_disputed : MutableChallenge → OutcomeDisputed → Verdict
unfolding is_state follow push_new dispute_mismatch
on_disputed c e =
    if is_state c.state proposed
    then (if dispute_mismatch c e
        then anomalous invalid_transition c
        else follow outcome_disputed (record c {
          dispute_evidence_hash = some e.evidence_hash;
          dispute_outcome = some e.asserted_outcome;
          evidence_hashes = push_new c.evidence_hashes e.evidence_hash;
        }))
    else follow outcome_disputed c
