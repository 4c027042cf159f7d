-- ===== src/Projector/Record.antt =====
-- tools/client/projector.ts: `projectProtocolLogs`.
use challenge_escrow_protoco.Prelude.{
  String, Bool, true, false, not, ◌&&◌, ◌||◌, Option, none, some, List, [], ◌∷◌, map, Dict, is_null,
  leb, if◌then◌else◌,
}
use challenge_escrow_protoco.Observer.Types.{Header, Log, RawLog}
use challenge_escrow_protoco.Observer.Hex.{lower}
use challenge_escrow_protoco.Observer.Logs.{size}
use challenge_escrow_protoco.Observer.View.{sort_logs}
use challenge_escrow_protoco.Events.Types.{Defect, ProtocolEvent, released, release_declared}
use challenge_escrow_protoco.Events.Exec.{Decoded, value, ◌>>=◌, ◌>>◌, assert}
use challenge_escrow_protoco.Events.Decode.{decode_protocol_event}
use challenge_escrow_protoco.Projector.Types.{
  BlockRef, release_conflict, ProjectionAnomaly, MutableChallenge, Projection, DecodedEvent,
  ProjectedChallenge, Status, consistent, incomplete, conflicted, EvidenceRecord,
}
use challenge_escrow_protoco.Projector.Shared.{terminal}
use challenge_escrow_protoco.Projector.Events.{project_events}
use challenge_escrow_protoco.Projector.Checks.{
  validate_finality, nothing_seen, check_logs, are_canonical, finality_of,
}

-- `decodeProtocolLog`, with the block as `logRecord` prints it
unfoldable pub decode_protocol_log : Log → Decoded DecodedEvent
decode_protocol_log log = do
  event ← decode_protocol_event log
  value (record {
    block_number = log.block_number;
    block_hash = lower log.block_hash;
    transaction_index = log.transaction_index;
    log_index = log.log_index;
    event = event;
  })

unfoldable pub decode_logs : List Log → Decoded (List DecodedEvent)
decode_logs [] = value []
decode_logs (log ∷ logs) = do d ← decode_protocol_log log; ds ← decode_logs logs; value (d ∷ ds)

abbrev pub is_release : ProtocolEvent → Bool
is_release (released e) = true
is_release _ = false

abbrev pub any_release : List DecodedEvent → Bool
any_release [] = false
any_release (d ∷ ds) = is_release d.event || any_release ds

abbrev starts_with_release : List DecodedEvent → Bool
starts_with_release [] = false
starts_with_release (d ∷ ds) = is_release d.event

-- The anomaly of a release that is not declared first.
unfoldable pub first_anomalies : List DecodedEvent → List ProjectionAnomaly
first_anomalies ds =
    if any_release ds && not (starts_with_release ds)
    then record { code = release_conflict; challenge_id = none; kind = release_declared } ∷ []
    else []

abbrev pub empty_projection : List ProjectionAnomaly → Projection
empty_projection anomalies = record {
  challenges = [];
  anomalies = anomalies;
  release = none;
  paused = none;
}

-- The record of a challenge.
unfoldable pub challenge_record : MutableChallenge → ProjectedChallenge
challenge_record c = record {
  challenge_id = c.challenge_id;
  state = c.state;
  event_count = c.event_count;
  first_event_block = c.first_event_block;
  last_event_block = c.last_event_block;
  last_event = c.last_event;
  created = c.created_event;
  evidence_hashes = c.evidence_hashes;
  payout_count = size c.payout_ids;
}

unfoldable pub challenge_records : Dict MutableChallenge → List ProjectedChallenge
challenge_records [] = []
challenge_records ((id, c) ∷ cs) = challenge_record c ∷ challenge_records cs

unfoldable pub any_open : List ProjectedChallenge → Bool
any_open [] = false
any_open (c ∷ cs) = not (terminal c.state) || any_open cs

-- The `status` of a projection.
unfoldable pub status_of : Projection → Status
status_of p =
    if leb 1 (size p.anomalies)
    then conflicted
    else if is_null p.release || any_open (challenge_records p.challenges)
    then incomplete
    else consistent

abbrev block_ref : Header → BlockRef
block_ref h = record { number = h.number; hash = lower h.hash }

abbrev optional_ref : Option Header → Option BlockRef
optional_ref none = none
optional_ref (some h) = some (block_ref h)

-- The record that is returned.
unfoldable pub evidence_record :
    Header → Option Header → Option Header → List DecodedEvent → Projection → EvidenceRecord
evidence_record head safe finalized ds p = record {
  head = record {
    number = head.number;
    hash = lower head.hash;
    finality = finality_of head safe finalized;
    safe = optional_ref safe;
    finalized = optional_ref finalized;
  };
  status = status_of p;
  release = p.release;
  paused = p.paused;
  event_count = size ds;
  logs = ds;
  challenges = challenge_records p.challenges;
  anomalies = p.anomalies;
}

module _ (compute_entitlement_id : String → String → String) where
  -- `projectProtocolLogs`
  unfoldable pub project_protocol_logs :
      List RawLog → Header → Option Header → Option Header → Decoded EvidenceRecord
  project_protocol_logs raws head safe finalized = do
    validate_finality head safe finalized
    seen ← check_logs head raws nothing_seen
    assert (leb (size seen.addresses) 1) Defect.mixed_contracts
    let sorted = sort_logs (map (λ raw. raw.log) raws)
    assert (are_canonical sorted) Defect.order_not_canonical
    ds ← decode_logs sorted
    value (
        evidence_record head safe finalized ds
          (project_events compute_entitlement_id ds (empty_projection (first_anomalies ds))))
