-- ===== src/Projector/Resolving.antt =====
-- tools/client/projector.ts: the handlers of the events that end a challenge in a resolution or a void.
use challenge_escrow_protoco.Prelude.{
  ℕ, ◌*◌, ◌==◌, String, Bool, true, false, not, ◌&&◌, ◌||◌, Option, some, holds_text, str_eq,
  if◌then◌else◌,
}
use challenge_escrow_protoco.Model.Types.{
  State, active, proposed, disputed, resolved_a, resolved_b, void, Outcome, for_a, for_b, for_void,
}
use challenge_escrow_protoco.Events.Types.{
  EventSide, on_a, on_b, ReleaseDeclared, ChallengeResolved, ChallengeVoided,
}
use challenge_escrow_protoco.Events.Words.{zero_hash_text}
use challenge_escrow_protoco.Projector.Types.{
  invalid_transition, duplicate_terminal, MutableChallenge, Verdict,
}
use challenge_escrow_protoco.Projector.Shared.{
  is_state, terminal, holds_outcome, holds_number, lacks_role, anomalous, accords, push_new,
}

abbrev won_by : EventSide → Outcome → Bool
won_by on_a for_a = true
won_by on_b for_b = true
won_by _ _ = false

-- `expectedWinner`, where it is known whether the challenger has won
abbrev pub expected_winner : MutableChallenge → Bool → Option String
expected_winner c challenger_won =
    if challenger_won then some c.created_event.challenger_wallet else c.accepting_wallet

abbrev pub resolved_state : Outcome → State
resolved_state for_a = resolved_a
resolved_state for_b = resolved_b
resolved_state for_void = void

unfoldable pub resolution_mismatch :
    Option ReleaseDeclared → MutableChallenge → ChallengeResolved → Bool
resolution_mismatch release c e =
    let direct = e.resolution_path == 0 in
    let parent = if direct then some zero_hash_text else c.dispute_evidence_hash in
    let evidence = if direct then c.proposal_evidence_hash else some e.final_evidence_hash in
    not (holds_text e.parent_evidence_hash parent)
    || (not (holds_text e.final_evidence_hash evidence)
        || ((direct
              && (not (holds_outcome e.final_outcome c.proposal_outcome)
                  || not (holds_number e.reason_code c.proposal_reason_code)))
            || (not (
                  holds_text e.winner_wallet
                    (expected_winner c (won_by c.created_event.challenger_side e.final_outcome)))
                || (not (e.claim_amount == c.created_event.stake_amount * 2)
                    || (e.resolution_path == 1
                        && lacks_role (λ r. r.arbiter) e.finalized_by release)))))

-- `ChallengeResolved`
unfoldable pub on_resolved : Option ReleaseDeclared → MutableChallenge → ChallengeResolved → Verdict
unfolding is_state terminal push_new resolution_mismatch
on_resolved release c e =
    if terminal c.state
    then anomalous duplicate_terminal c
    else if not (is_state c.state (if e.resolution_path == 0 then proposed else disputed))
    then anomalous invalid_transition c
    else if resolution_mismatch release c e
    then anomalous invalid_transition c
    else accords (record c {
      state = resolved_state e.final_outcome;
      evidence_hashes = push_new c.evidence_hashes e.final_evidence_hash;
    })

unfoldable pub void_mismatch : Option ReleaseDeclared → MutableChallenge → ChallengeVoided → Bool
void_mismatch release c e =
    let evidence =
      if e.void_path == 0 then c.proposal_evidence_hash else some e.final_evidence_hash in
    let parent = if e.void_path == 1 then c.dispute_evidence_hash else some zero_hash_text in
    not (e.refund_amount_each == c.created_event.stake_amount)
    || (not (holds_text e.final_evidence_hash evidence)
        || (not (holds_text e.parent_evidence_hash parent)
            || ((e.void_path == 0
                  && (not (holds_outcome for_void c.proposal_outcome)
                      || not (holds_number e.void_reason c.proposal_reason_code)))
                || (e.void_path == 1 && lacks_role (λ r. r.arbiter) e.materialized_by release))))

-- The state that a void comes from on a path.
unfoldable pub void_origin : ℕ → State
void_origin path =
    if path == 0 then proposed else if path == 1 || path == 3 then disputed else active

-- `ChallengeVoided`
unfoldable pub on_voided : Option ReleaseDeclared → MutableChallenge → ChallengeVoided → Verdict
unfolding is_state terminal push_new void_origin void_mismatch
on_voided release c e =
    if terminal c.state
    then anomalous duplicate_terminal c
    else if not (is_state c.state (void_origin e.void_path))
    then anomalous invalid_transition c
    else if void_mismatch release c e
    then anomalous invalid_transition c
    else accords (record c {
      state = void;
      evidence_hashes =
          if str_eq e.final_evidence_hash zero_hash_text
          then c.evidence_hashes
          else push_new c.evidence_hashes e.final_evidence_hash;
    })
