-- ===== src/Events/Decode.antt =====
-- tools/client/events.ts: the table of signatures and the decoder of a log.
use challenge_escrow_protoco.Prelude.{
  String, Option, none, some, List, [], ◌∷◌, str_eq, if◌then◌else◌,
}
use challenge_escrow_protoco.Observer.Types.{Log}
use challenge_escrow_protoco.Events.Types.{
  EventKind, release_declared, pause_status_changed, challenge_created, acceptance_nonce_advanced,
  challenge_accepted, challenge_cancelled, challenge_expired, outcome_proposed, outcome_disputed,
  challenge_resolved, challenge_voided, winnings_claimed, principal_refunded, ProtocolEvent,
  released, pause_changed, created, nonce_advanced, accepted, cancelled, expired, proposed,
  disputed, resolved, voided, claimed, refunded, Defect,
}
use challenge_escrow_protoco.Events.Exec.{Decoded, value, defective, ◌>>=◌}
use challenge_escrow_protoco.Events.Words.{bytes32}
use challenge_escrow_protoco.Events.Opening.{
  decode_pause_status_changed, decode_challenge_created, decode_acceptance_nonce_advanced,
  decode_challenge_accepted, decode_challenge_cancelled, decode_challenge_expired,
}
use challenge_escrow_protoco.Events.Deciding.{
  decode_outcome_proposed, decode_outcome_disputed, decode_challenge_resolved,
  decode_challenge_voided,
}
use challenge_escrow_protoco.Events.Closing.{decode_winnings_claimed, decode_principal_refunded}
use challenge_escrow_protoco.Events.Release.{decode_release_declared}

-- `eventSignature`: the key of a kind in `signatures`
unfoldable pub event_signature : EventKind → String
event_signature release_declared =
    "0x58ff9cf3a216732baaf694943f7d64940d5bf1455c9c40a510236b3e1568c2d2"
event_signature pause_status_changed =
    "0xb8001de07eb4cbba5b9e5f560980990844b6b389db760eab47c8a574fec01d28"
event_signature challenge_created =
    "0x71a9e34d73d92a3126e9f52e7cd3da34eb1cc37d7fd9708d85bb03816bb36836"
event_signature acceptance_nonce_advanced =
    "0x2fdb0c9000fcf6f0667d7955ee88a49c6684edf296615f4711278761756df33a"
event_signature challenge_accepted =
    "0x75c3f3c74e516cfc210ea6de7f35096bd4f58111091af31db63f1e0ee7d8af1d"
event_signature challenge_cancelled =
    "0x2cb7d696d5bdceff9373644531010b415b2c02e5d1dbf0526b8d877cfcfe4d4e"
event_signature challenge_expired =
    "0xbd8c75dd6475654e5e8813516e9fb0e3c7d5e0715ccbb497a534e684300dcb9e"
event_signature outcome_proposed =
    "0x02e3e014f3bd4c526b1c639a4009564b4a58dd7dd1caa072961bd067956b973b"
event_signature outcome_disputed =
    "0x5dad5250aec28d0638dc7bee16d10dbec45733958a6468410fd9d7de0c010699"
event_signature challenge_resolved =
    "0xe28a0594fee27ebef83e9d8f57c0b688ace28ac6f6829a2e8c22ba1dc7037894"
event_signature challenge_voided =
    "0xf9632f0f41714fbb81d5d9452bc5025d7e452bb45f742618446dccd3fa1ce67f"
event_signature winnings_claimed =
    "0x4eb2d19e6c39001f1a1c8687743849b1cb3f03696602c47188e2470a3a3c62f5"
event_signature principal_refunded =
    "0x41a4d4cbbcdc2ac4f0849cd696792f27d785275ffb541a6526d1c438dd7c74e6"

abbrev pub all_kinds : List EventKind
all_kinds =
    release_declared ∷ pause_status_changed ∷ challenge_created ∷ acceptance_nonce_advanced
    ∷ challenge_accepted ∷ challenge_cancelled ∷ challenge_expired ∷ outcome_proposed
    ∷ outcome_disputed ∷ challenge_resolved ∷ challenge_voided ∷ winnings_claimed
    ∷ principal_refunded ∷ []

unfoldable pub search_kind : String → List EventKind → Option EventKind
unfolding event_signature
search_kind signature [] = none
search_kind signature (k ∷ ks) =
    if str_eq (event_signature k) signature then some k else search_kind signature ks

-- `signatures[signature]`
unfoldable pub kind_with : String → Option EventKind
unfolding search_kind
kind_with signature = search_kind signature all_kinds

unfoldable pub tagged : {A : Type 0} → (A → ProtocolEvent) → Decoded A → Decoded ProtocolEvent
tagged tag decoded = do e ← decoded; value (tag e)

-- The `switch` of `decodeProtocolEvent`.
unfoldable pub decode_kind : EventKind → Log → Decoded ProtocolEvent
decode_kind release_declared log = tagged released (decode_release_declared log)
decode_kind pause_status_changed log = tagged pause_changed (decode_pause_status_changed log)
decode_kind challenge_created log = tagged created (decode_challenge_created log)
decode_kind acceptance_nonce_advanced log =
    tagged nonce_advanced (decode_acceptance_nonce_advanced log)
decode_kind challenge_accepted log = tagged accepted (decode_challenge_accepted log)
decode_kind challenge_cancelled log = tagged cancelled (decode_challenge_cancelled log)
decode_kind challenge_expired log = tagged expired (decode_challenge_expired log)
decode_kind outcome_proposed log = tagged proposed (decode_outcome_proposed log)
decode_kind outcome_disputed log = tagged disputed (decode_outcome_disputed log)
decode_kind challenge_resolved log = tagged resolved (decode_challenge_resolved log)
decode_kind challenge_voided log = tagged voided (decode_challenge_voided log)
decode_kind winnings_claimed log = tagged claimed (decode_winnings_claimed log)
decode_kind principal_refunded log = tagged refunded (decode_principal_refunded log)

abbrev pub signature_topic : List String → Decoded String
signature_topic [] = defective Defect.signature_missing
signature_topic (t ∷ ts) = bytes32 t

abbrev pub known_kind : Option EventKind → Decoded EventKind
known_kind none = defective Defect.unknown_signature
known_kind (some k) = value k

-- `decodeProtocolEvent`
unfoldable pub decode_protocol_event : Log → Decoded ProtocolEvent
decode_protocol_event log = do
  signature ← signature_topic log.topics
  kind ← known_kind (kind_with signature)
  decode_kind kind log
