-- ===== src/Tests/Projecting.antt =====
-- tools/client/events.ts and tools/client/projector.ts on small inputs: a challenge that is accepted,
-- proposed, resolved and claimed.
use challenge_escrow_protoco.Prelude.{
  ℕ, ◌*◌, ◌≤◌, String, ◌≡◌, refl, true, false, none, some, List, [], ◌∷◌, lookup, is_null, includes,
}
use challenge_escrow_protoco.Model.Types.{State, for_a}
use challenge_escrow_protoco.Observer.Logs.{size}
use challenge_escrow_protoco.Events.Types.{
  winnings_claimed, on_a, on_b, ReleaseDeclared, ChallengeCreated, ProtocolEvent, kind_of, released,
  kind_of, created, accepted, proposed, resolved, claimed,
}
use challenge_escrow_protoco.Events.Words.{zero_hash_text}
use challenge_escrow_protoco.Projector.Types.{
  MutableChallenge, Projection, DecodedEvent, consistent,
}
use challenge_escrow_protoco.Observer.Hex.{lower}
use challenge_escrow_protoco.Projector.Shared.{terminal, transition}
use challenge_escrow_protoco.Projector.Opening.{new_challenge}
use challenge_escrow_protoco.Projector.Events.{
  event_challenge_id, on_unknown, on_known, project_event, project_events,
}
use challenge_escrow_protoco.Projector.Record.{
  empty_projection, first_anomalies, challenge_record, challenge_records, any_open, status_of,
}
use challenge_escrow_protoco.Projector.Continuing.{Continues, project_events-Continues}
use challenge_escrow_protoco.Projector.Paying.{IsPaid, each_in, deposited}
use challenge_escrow_protoco.Projector.Received.{received, project_events-received}
use challenge_escrow_protoco.Projector.Accounting.{counted, events_of, project_events-accounted}

-- An id of an entitlement that is the wallet.
abbrev wallet_as_id : String → String → String
wallet_as_id id wallet = wallet

abbrev at_block : ℕ → ProtocolEvent → DecodedEvent
at_block n event = record {
  block_number = n;
  block_hash = "h";
  transaction_index = 0;
  log_index = n;
  event = event;
}

abbrev declared : ReleaseDeclared
declared = record {
  release_id = "r";
  event_protocol_id = [];
  protocol_version = [];
  challenge_schema_id = [];
  evidence_schema_id = [];
  chain_id = 1;
  escrow_contract = "escrow";
  canonical_token = "token";
  token_decimals = 6;
  value_mode = 0;
  resolver = "resolver";
  arbiter = "arbiter";
  initial_paused = false;
}

abbrev opening : ChallengeCreated
opening = record {
  challenge_id = "c";
  spec_hash = "s";
  instance_nonce = "n";
  challenger_wallet = "alice";
  challenger_side = on_a;
  stake_amount = 5;
  acceptance_nonce = 0;
  acceptance_deadline = 10;
  observation_time = 20;
  source_correction_cutoff = 25;
  proposal_deadline = 30;
  dispute_window_seconds = 10;
  arbitration_window_seconds = 10;
  timeout_void_at = 60;
  execution_hash = "x";
  terms_hash = "t";
  created_at = 1;
}

abbrev taken : ProtocolEvent
taken = accepted (record {
  challenge_id = "c";
  accepting_wallet = "bob";
  accepting_side = on_b;
  consumed_nonce = 0;
  permit_expires_at = 9;
  stake_amount = 5;
})

abbrev said : ProtocolEvent
said = proposed (record {
  challenge_id = "c";
  resolver = "resolver";
  asserted_outcome = for_a;
  reason_code = 0;
  evidence_hash = "e";
  dispute_deadline = 35;
})

abbrev decided : ProtocolEvent
decided = resolved (record {
  challenge_id = "c";
  finalized_by = "anyone";
  final_outcome = for_a;
  reason_code = 0;
  final_evidence_hash = "e";
  parent_evidence_hash = zero_hash_text;
  resolution_path = 0;
  winner_wallet = "alice";
  claim_amount = 10;
})

abbrev paid : ProtocolEvent
paid =
    claimed (record { challenge_id = "c"; entitlement_id = "alice"; wallet = "alice"; amount = 10 })

abbrev history : List DecodedEvent
history =
    at_block 1 (released declared)
    ∷ at_block 2 (created opening)
    ∷ at_block 3 taken
    ∷ at_block 4 said
    ∷ at_block 5 decided
    ∷ at_block 6 paid
    ∷ []

unfoldable final : Projection
unfolding project_events
final = project_events wallet_as_id history (empty_projection (first_anomalies history))

history_consistent : status_of final ≡ consistent
unfolding final status_of project_events project_event event_challenge_id on_unknown includes
    on_known transition lower first_anomalies any_open challenge_records challenge_record
history_consistent = refl

paid_again : size (project_event wallet_as_id (at_block 7 paid) final).anomalies ≡ 1
unfolding final project_event event_challenge_id project_events on_unknown includes on_known
    transition lower first_anomalies
paid_again = refl

abbrev ended : MutableChallenge
ended = record {
  challenge_id = "c";
  state = State.resolved_a;
  event_count = 5;
  first_event_block = 2;
  last_event_block = 6;
  last_event = winnings_claimed;
  created_event = opening;
  acceptance_nonce = 0;
  accepting_wallet = some "bob";
  proposal_evidence_hash = some "e";
  proposal_outcome = some for_a;
  proposal_reason_code = some 0;
  proposal_dispute_deadline = some 35;
  dispute_evidence_hash = none;
  dispute_outcome = none;
  evidence_hashes = "e" ∷ [];
  payout_ids = "alice" ∷ [];
  payout_wallets = "alice" ∷ [];
}

ended_found :
    lookup "c"
      (project_events wallet_as_id history (empty_projection (first_anomalies history))).challenges
    ≡ some ended
unfolding project_event event_challenge_id project_events on_unknown includes on_known transition
    lower first_anomalies kind_of
ended_found = refl

project_events-received_example :
    (received wallet_as_id "c" history (empty_projection (first_anomalies history))
      ≤ deposited ended)
    × (received wallet_as_id "c" history (empty_projection (first_anomalies history))
        ≡ (challenge_record ended).payout_count
          * each_in ended.state ended.created_event.stake_amount)
    × IsPaid ended
project_events-received_example =
    project_events-received wallet_as_id history (first_anomalies history) "c" ended ended_found

project_events-accounted_example :
    let p = project_events wallet_as_id history (empty_projection (first_anomalies history)) in
    (is_null p.release ≡ false)
    × ((id : String) (c : MutableChallenge)
        → lookup id p.challenges ≡ some c
        → terminal c.state ≡ true)
    × ((id : String) → counted id p ≡ events_of id history)
unfolding final
project_events-accounted_example = project_events-accounted wallet_as_id history history_consistent

abbrev later : List DecodedEvent
later = at_block 3 taken ∷ at_block 4 said ∷ at_block 5 decided ∷ at_block 6 paid ∷ []

abbrev started : Projection
started = record (empty_projection []) { challenges = ("c", new_challenge 2 opening) ∷ [] }

project_events-Continues_example :
    (d : MutableChallenge) × (lookup "c" (project_events wallet_as_id later started).challenges
      ≡ some d)
    × Continues (new_challenge 2 opening) d
    × (terminal (new_challenge 2 opening).state ≡ true → d.state ≡ (new_challenge 2 opening).state)
unfolding new_challenge
project_events-Continues_example =
    project_events-Continues wallet_as_id later "c" (new_challenge 2 opening) started refl
