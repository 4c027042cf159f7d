-- ===== src/Events/Opening.antt =====
-- tools/client/events.ts: the decoders of the events that open a challenge, and of a change of pause.
use challenge_escrow_protoco.Prelude.{◌+◌, ◌/◌, ◌==◌, not, ◌&&◌, ltb, leb, bool_eq}
use challenge_escrow_protoco.Observer.Types.{Log}
use challenge_escrow_protoco.Events.Types.{
  Defect, PauseStatusChanged, ChallengeCreated, AcceptanceNonceAdvanced, ChallengeAccepted,
  ChallengeCancelled, ChallengeExpired,
}
use challenge_escrow_protoco.Events.Exec.{Decoded, value, ◌>>=◌, ◌>>◌, assert}
use challenge_escrow_protoco.Events.Words.{
  max_uint256, words, uint, uint64, bool_word, non_zero_bytes32, non_zero_address, challenge_topic,
  side, read, read_topic, has_topics,
}

-- `decodePauseStatusChanged`
unfoldable pub decode_pause_status_changed : Log → Decoded PauseStatusChanged
decode_pause_status_changed log = do
  has_topics log 1
  words log.data_text 3
  changed_by ← read non_zero_address log 0
  previous_paused ← read bool_word log 1
  new_paused ← read bool_word log 2
  assert (not (bool_eq previous_paused new_paused)) Defect.pause_unchanged
  value (record {
    changed_by = changed_by;
    previous_paused = previous_paused;
    new_paused = new_paused;
  })

-- The assertions of `decodeChallengeCreated` on the event that it has read.
unfoldable pub check_created : ChallengeCreated → Decoded ChallengeCreated
check_created e = do
  assert (ltb 0 e.stake_amount && leb e.stake_amount (max_uint256 / 2)) Defect.stake_range
  assert (e.acceptance_nonce == 0) Defect.nonce_not_zero
  assert
      (ltb e.created_at e.acceptance_deadline
        && (ltb e.acceptance_deadline e.observation_time
            && (ltb e.observation_time e.source_correction_cutoff
                && ltb e.source_correction_cutoff e.proposal_deadline)))
      Defect.deadline_order
  assert (ltb 0 e.dispute_window_seconds && ltb 0 e.arbitration_window_seconds) Defect.window_zero
  assert (ltb e.source_correction_cutoff (e.observation_time + e.dispute_window_seconds))
      Defect.cutoff_late
  assert
      (leb (e.proposal_deadline + e.dispute_window_seconds + e.arbitration_window_seconds)
          e.timeout_void_at
        && leb (e.source_correction_cutoff + e.arbitration_window_seconds) e.timeout_void_at)
      Defect.timeout_early
  value e

-- `decodeChallengeCreated`
unfoldable pub decode_challenge_created : Log → Decoded ChallengeCreated
decode_challenge_created log = do
  has_topics log 3
  words log.data_text 15
  challenge_id ← challenge_topic log
  spec_hash ← read non_zero_bytes32 log 0
  instance_nonce ← read non_zero_bytes32 log 1
  challenger_wallet ← read_topic non_zero_address log 2
  challenger_side ← read side log 2
  stake_amount ← read uint log 3
  acceptance_nonce ← read uint log 4
  acceptance_deadline ← read uint64 log 5
  observation_time ← read uint64 log 6
  source_correction_cutoff ← read uint64 log 7
  proposal_deadline ← read uint64 log 8
  dispute_window_seconds ← read uint64 log 9
  arbitration_window_seconds ← read uint64 log 10
  timeout_void_at ← read uint64 log 11
  execution_hash ← read non_zero_bytes32 log 12
  terms_hash ← read non_zero_bytes32 log 13
  created_at ← read uint64 log 14
  check_created (record {
    challenge_id = challenge_id;
    spec_hash = spec_hash;
    instance_nonce = instance_nonce;
    challenger_wallet = challenger_wallet;
    challenger_side = challenger_side;
    stake_amount = stake_amount;
    acceptance_nonce = acceptance_nonce;
    acceptance_deadline = acceptance_deadline;
    observation_time = observation_time;
    source_correction_cutoff = source_correction_cutoff;
    proposal_deadline = proposal_deadline;
    dispute_window_seconds = dispute_window_seconds;
    arbitration_window_seconds = arbitration_window_seconds;
    timeout_void_at = timeout_void_at;
    execution_hash = execution_hash;
    terms_hash = terms_hash;
    created_at = created_at;
  })

-- `decodeAcceptanceNonceAdvanced`
unfoldable pub decode_acceptance_nonce_advanced : Log → Decoded AcceptanceNonceAdvanced
decode_acceptance_nonce_advanced log = do
  has_topics log 3
  words log.data_text 2
  challenge_id ← challenge_topic log
  challenger_wallet ← read_topic non_zero_address log 2
  previous_nonce ← read uint log 0
  new_nonce ← read uint log 1
  assert (new_nonce == previous_nonce + 1) Defect.nonce_step
  value (record {
    challenge_id = challenge_id;
    challenger_wallet = challenger_wallet;
    previous_nonce = previous_nonce;
    new_nonce = new_nonce;
  })

-- `decodeChallengeAccepted`
unfoldable pub decode_challenge_accepted : Log → Decoded ChallengeAccepted
decode_challenge_accepted log = do
  has_topics log 3
  words log.data_text 4
  challenge_id ← challenge_topic log
  accepting_wallet ← read_topic non_zero_address log 2
  accepting_side ← read side log 0
  consumed_nonce ← read uint log 1
  permit_expires_at ← read uint64 log 2
  stake_amount ← read uint log 3
  assert (ltb 0 permit_expires_at && ltb 0 stake_amount) Defect.amount_zero
  value (record {
    challenge_id = challenge_id;
    accepting_wallet = accepting_wallet;
    accepting_side = accepting_side;
    consumed_nonce = consumed_nonce;
    permit_expires_at = permit_expires_at;
    stake_amount = stake_amount;
  })

-- `decodeChallengeCancelled`
unfoldable pub decode_challenge_cancelled : Log → Decoded ChallengeCancelled
decode_challenge_cancelled log = do
  has_topics log 3
  words log.data_text 1
  challenge_id ← challenge_topic log
  challenger_wallet ← read_topic non_zero_address log 2
  refund_amount ← read uint log 0
  assert (ltb 0 refund_amount) Defect.amount_zero
  value (record {
    challenge_id = challenge_id;
    challenger_wallet = challenger_wallet;
    refund_amount = refund_amount;
  })

-- `decodeChallengeExpired`
unfoldable pub decode_challenge_expired : Log → Decoded ChallengeExpired
decode_challenge_expired log = do
  has_topics log 3
  words log.data_text 2
  challenge_id ← challenge_topic log
  materialized_by ← read non_zero_address log 0
  challenger_wallet ← read_topic non_zero_address log 2
  refund_amount ← read uint log 1
  assert (ltb 0 refund_amount) Defect.amount_zero
  value (record {
    challenge_id = challenge_id;
    materialized_by = materialized_by;
    challenger_wallet = challenger_wallet;
    refund_amount = refund_amount;
  })
