-- ===== src/Tests/Decoding.antt =====
-- tools/client/events.ts on the log of a cancelled challenge.
use challenge_escrow_protoco.Prelude.{◌≡◌, refl, ◌↔◌, some, [], ◌∷◌}
use challenge_escrow_protoco.Observer.Types.{Log}
use challenge_escrow_protoco.Observer.Hex.{lower, is_hash, all_hex}
use challenge_escrow_protoco.Events.Types.{challenge_cancelled, cancelled, kind_of}
use challenge_escrow_protoco.Events.Exec.{value, Gives, ◌>>=◌, ◌>>◌, assert}
use challenge_escrow_protoco.Events.Words.{
  bytes32, has_topics, words, challenge_topic, topic, non_zero_bytes32, read_topic,
  non_zero_address, address_word, take_text, drop_text, read, word, uint, digits_value, digit_value,
}
use challenge_escrow_protoco.Events.Opening.{decode_challenge_cancelled}
use challenge_escrow_protoco.Events.Decode.{
  event_signature, kind_with, tagged, decode_kind, decode_protocol_event,
}
use challenge_escrow_protoco.Events.Declared.{declared_topic, kind_with-declared}
use challenge_escrow_protoco.Events.Sound.{IsSound}
use challenge_escrow_protoco.Events.Whole.{signature_of, decode_protocol_event-IsSound}

abbrev cancellation : Log
cancellation = record {
  address = "0xAAAAAAAAAAAAAAAAAAAAAAAAAAAAAAAAAAAAAAAA";
  block_number = 7;
  block_hash = "0x2222222222222222222222222222222222222222222222222222222222222222";
  transaction_index = 0;
  log_index = 3;
  topics =
      "0x2cb7d696d5bdceff9373644531010b415b2c02e5d1dbf0526b8d877cfcfe4d4e"
      ∷ "0x00000000000000000000000000000000000000000000000000000000000000C1"
      ∷ "0x0000000000000000000000001111111111111111111111111111111111111111" ∷ [];
  data_text = "0x00000000000000000000000000000000000000000000000000000000000003e8";
}

cancellation_decoded :
    decode_protocol_event cancellation
    ≡ value (
        cancelled (record {
          challenge_id = "0x00000000000000000000000000000000000000000000000000000000000000c1";
          challenger_wallet = "0x1111111111111111111111111111111111111111";
          refund_amount = 1000;
        }))
unfolding decode_protocol_event ◌>>=◌ bytes32 ◌>>◌ assert is_hash all_hex kind_with lower
    decode_kind tagged decode_challenge_cancelled has_topics words challenge_topic topic
    non_zero_bytes32 read_topic non_zero_address address_word take_text drop_text read word uint
    digits_value digit_value
cancellation_decoded = refl

kind_with-declared_example :
    (kind_with "0x2cb7d696d5bdceff9373644531010b415b2c02e5d1dbf0526b8d877cfcfe4d4e"
      ≡ some challenge_cancelled)
    ↔ ("0x2cb7d696d5bdceff9373644531010b415b2c02e5d1dbf0526b8d877cfcfe4d4e"
        ≡ declared_topic challenge_cancelled)
kind_with-declared_example =
    kind_with-declared "0x2cb7d696d5bdceff9373644531010b415b2c02e5d1dbf0526b8d877cfcfe4d4e"
      challenge_cancelled

decode_protocol_event-IsSound_example :
    Gives
      (λ e. IsSound e × (event_signature (kind_of e) ≡ signature_of cancellation.topics))
      (decode_protocol_event cancellation)
decode_protocol_event-IsSound_example = decode_protocol_event-IsSound cancellation
