-- ===== src/Projector/Opening.antt =====
-- tools/client/projector.ts: the handlers of the events that open a challenge.
use challenge_escrow_protoco.Prelude.{
  ℕ, ◌==◌, Bool, not, ◌&&◌, ◌||◌, Option, none, some, [], str_eq, leb, if◌then◌else◌,
}
use challenge_escrow_protoco.Model.Types.{opened}
use challenge_escrow_protoco.Events.Types.{
  challenge_created, challenge_accepted, challenge_cancelled, challenge_expired, ReleaseDeclared,
  ChallengeCreated, AcceptanceNonceAdvanced, ChallengeAccepted, ChallengeCancelled,
  ChallengeExpired,
}
use challenge_escrow_protoco.Projector.Types.{invalid_transition, MutableChallenge, Verdict}
use challenge_escrow_protoco.Projector.Shared.{
  is_state, is_side, other_side, overlaps_release_boundary, anomalous, accords, follow,
}

-- The challenge that `ChallengeCreated` sets.
unfoldable pub new_challenge : ℕ → ChallengeCreated → MutableChallenge
new_challenge block e = record {
  challenge_id = e.challenge_id;
  state = opened;
  event_count = 1;
  first_event_block = block;
  last_event_block = block;
  last_event = challenge_created;
  created_event = e;
  acceptance_nonce = e.acceptance_nonce;
  accepting_wallet = none;
  proposal_evidence_hash = none;
  proposal_outcome = none;
  proposal_reason_code = none;
  proposal_dispute_deadline = none;
  dispute_evidence_hash = none;
  dispute_outcome = none;
  evidence_hashes = [];
  payout_ids = [];
  payout_wallets = [];
}

-- `AcceptanceNonceAdvanced`
unfoldable pub on_nonce_advanced : MutableChallenge → AcceptanceNonceAdvanced → Verdict
unfolding is_state
on_nonce_advanced c e =
    if not (is_state c.state opened)
      || (not (str_eq e.challenger_wallet c.created_event.challenger_wallet)
          || not (e.previous_nonce == c.acceptance_nonce))
    then anomalous invalid_transition c
    else accords (record c { acceptance_nonce = e.new_nonce })

unfoldable pub acceptance_mismatch :
    Option ReleaseDeclared → MutableChallenge → ChallengeAccepted → Bool
unfolding overlaps_release_boundary
acceptance_mismatch release c e =
    str_eq e.accepting_wallet c.created_event.challenger_wallet
    || (overlaps_release_boundary e.accepting_wallet release
        || (not (is_side e.accepting_side (other_side c.created_event.challenger_side))
            || (not (e.consumed_nonce == c.acceptance_nonce)
                || (not (e.stake_amount == c.created_event.stake_amount)
                    || (leb e.permit_expires_at c.created_event.created_at
                        || not (leb e.permit_expires_at c.created_event.acceptance_deadline))))))

-- `ChallengeAccepted`
unfoldable pub on_accepted : Option ReleaseDeclared → MutableChallenge → ChallengeAccepted → Verdict
unfolding is_state acceptance_mismatch follow
on_accepted release c e =
    if is_state c.state opened
    then (if acceptance_mismatch release c e
        then anomalous invalid_transition c
        else follow challenge_accepted (record c { accepting_wallet = some e.accepting_wallet }))
    else follow challenge_accepted c

-- `ChallengeCancelled`
unfoldable pub on_cancelled : MutableChallenge → ChallengeCancelled → Verdict
unfolding is_state follow
on_cancelled c e =
    if is_state c.state opened
      && (not (str_eq e.challenger_wallet c.created_event.challenger_wallet)
          || not (e.refund_amount == c.created_event.stake_amount))
    then anomalous invalid_transition c
    else follow challenge_cancelled c

-- `ChallengeExpired`
unfoldable pub on_expired : MutableChallenge → ChallengeExpired → Verdict
unfolding is_state follow
on_expired c e =
    if is_state c.state opened
      && (not (str_eq e.challenger_wallet c.created_event.challenger_wallet)
          || not (e.refund_amount == c.created_event.stake_amount))
    then anomalous invalid_transition c
    else follow challenge_expired c
