-- ===== src/Events/Deciding.antt =====
-- tools/client/events.ts: the decoders of the events that decide a challenge.
use challenge_escrow_protoco.Prelude.{
  ℕ, ◌-◌, ◌==◌, String, Bool, true, false, not, ◌&&◌, str_eq, ltb, leb, if◌then◌else◌,
}
use challenge_escrow_protoco.Model.Types.{Outcome, for_void}
use challenge_escrow_protoco.Observer.Types.{Log}
use challenge_escrow_protoco.Events.Types.{
  Defect, OutcomeProposed, OutcomeDisputed, ChallengeResolved, ChallengeVoided,
}
use challenge_escrow_protoco.Events.Exec.{Decoded, value, ◌>>=◌, ◌>>◌, assert}
use challenge_escrow_protoco.Events.Words.{
  zero_hash_text, words, uint, uint64, bounded_uint, bytes32, non_zero_bytes32, non_zero_address,
  challenge_topic, outcome, reason_code, read, read_topic, has_topics,
}

-- `decodeOutcomeProposed`
unfoldable pub decode_outcome_proposed : Log → Decoded OutcomeProposed
decode_outcome_proposed log = do
  has_topics log 3
  words log.data_text 4
  asserted_outcome ← read outcome log 0
  challenge_id ← challenge_topic log
  resolver ← read_topic non_zero_address log 2
  reason ← read (λ text. reason_code text asserted_outcome) log 1
  evidence_hash ← read non_zero_bytes32 log 2
  dispute_deadline ← read uint64 log 3
  value (record {
    challenge_id = challenge_id;
    resolver = resolver;
    asserted_outcome = asserted_outcome;
    reason_code = reason;
    evidence_hash = evidence_hash;
    dispute_deadline = dispute_deadline;
  })

-- `decodeOutcomeDisputed`
unfoldable pub decode_outcome_disputed : Log → Decoded OutcomeDisputed
decode_outcome_disputed log = do
  has_topics log 3
  words log.data_text 6
  asserted_outcome ← read outcome log 0
  challenge_id ← challenge_topic log
  disputing_wallet ← read_topic non_zero_address log 2
  reason ← read (λ text. reason_code text asserted_outcome) log 1
  evidence_hash ← read non_zero_bytes32 log 2
  parent_evidence_hash ← read non_zero_bytes32 log 3
  arbitration_start ← read uint64 log 4
  arbitration_deadline ← read uint64 log 5
  assert (ltb arbitration_start arbitration_deadline) Defect.arbitration_interval
  value (record {
    challenge_id = challenge_id;
    disputing_wallet = disputing_wallet;
    asserted_outcome = asserted_outcome;
    reason_code = reason;
    evidence_hash = evidence_hash;
    parent_evidence_hash = parent_evidence_hash;
    arbitration_start = arbitration_start;
    arbitration_deadline = arbitration_deadline;
  })

abbrev pub is_void : Outcome → Bool
is_void for_void = true
is_void _ = false

-- `parentEvidenceHash` on a path with number 0, and on a later one
abbrev pub fits_path : ℕ → String → Bool
fits_path path parent =
    if path == 0 then str_eq parent zero_hash_text else not (str_eq parent zero_hash_text)

-- `decodeChallengeResolved`
unfoldable pub decode_challenge_resolved : Log → Decoded ChallengeResolved
decode_challenge_resolved log = do
  has_topics log 4
  words log.data_text 6
  final_outcome ← read outcome log 0
  assert (not (is_void final_outcome)) Defect.void_outcome
  resolution_path ← read (λ text. bounded_uint text 1) log 4
  parent_evidence_hash ← read bytes32 log 3
  assert (fits_path resolution_path parent_evidence_hash) Defect.parent_hash
  claim_amount ← read uint log 5
  assert (ltb 0 claim_amount) Defect.amount_zero
  challenge_id ← challenge_topic log
  finalized_by ← read_topic non_zero_address log 2
  winner_wallet ← read_topic non_zero_address log 3
  reason ← read (λ text. reason_code text final_outcome) log 1
  final_evidence_hash ← read non_zero_bytes32 log 2
  value (record {
    challenge_id = challenge_id;
    finalized_by = finalized_by;
    final_outcome = final_outcome;
    reason_code = reason;
    final_evidence_hash = final_evidence_hash;
    parent_evidence_hash = parent_evidence_hash;
    resolution_path = resolution_path;
    winner_wallet = winner_wallet;
    claim_amount = claim_amount;
  })

-- The tests on the hashes of `decodeChallengeVoided`. The subtraction is on paths from 2.
unfoldable pub check_void_hashes : ℕ → ℕ → String → String → Decoded (Unit {0})
check_void_hashes path reason final parent =
    if leb 2 path
    then (assert (str_eq final zero_hash_text && str_eq parent zero_hash_text) Defect.timeout_hashes
        >> assert (reason == path - 2) Defect.timeout_reason)
    else (assert (not (str_eq final zero_hash_text)) Defect.final_hash
        >> assert (fits_path path parent) Defect.parent_hash)

-- `decodeChallengeVoided`
unfoldable pub decode_challenge_voided : Log → Decoded ChallengeVoided
decode_challenge_voided log = do
  has_topics log 3
  words log.data_text 5
  void_path ← read (λ text. bounded_uint text 3) log 3
  void_reason ← read (λ text. bounded_uint text (if leb 2 void_path then 1 else 5)) log 0
  final_evidence_hash ← read bytes32 log 1
  parent_evidence_hash ← read bytes32 log 2
  check_void_hashes void_path void_reason final_evidence_hash parent_evidence_hash
  refund_amount_each ← read uint log 4
  assert (ltb 0 refund_amount_each) Defect.amount_zero
  challenge_id ← challenge_topic log
  materialized_by ← read_topic non_zero_address log 2
  value (record {
    challenge_id = challenge_id;
    materialized_by = materialized_by;
    void_reason = void_reason;
    final_evidence_hash = final_evidence_hash;
    parent_evidence_hash = parent_evidence_hash;
    void_path = void_path;
    refund_amount_each = refund_amount_each;
  })
