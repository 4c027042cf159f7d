-- ===== src/Events/Closing.antt =====
-- tools/client/events.ts: the decoders of payouts.
use challenge_escrow_protoco.Prelude.{◌==◌, ◌||◌, ltb}
use challenge_escrow_protoco.Observer.Types.{Log}
use challenge_escrow_protoco.Events.Types.{Defect, WinningsClaimed, PrincipalRefunded}
use challenge_escrow_protoco.Events.Exec.{Decoded, value, ◌>>=◌, ◌>>◌, assert}
use challenge_escrow_protoco.Events.Words.{
  words, uint, bounded_uint, non_zero_bytes32, non_zero_address, challenge_topic, read, read_topic,
  has_topics,
}

-- `decodeWinningsClaimed`
unfoldable pub decode_winnings_claimed : Log → Decoded WinningsClaimed
decode_winnings_claimed log = do
  has_topics log 4
  words log.data_text 1
  challenge_id ← challenge_topic log
  entitlement_id ← read_topic non_zero_bytes32 log 2
  wallet ← read_topic non_zero_address log 3
  amount ← read uint log 0
  assert (ltb 0 amount) Defect.amount_zero
  value (record {
    challenge_id = challenge_id;
    entitlement_id = entitlement_id;
    wallet = wallet;
    amount = amount;
  })

-- `decodePrincipalRefunded`
unfoldable pub decode_principal_refunded : Log → Decoded PrincipalRefunded
decode_principal_refunded log = do
  has_topics log 4
  words log.data_text 2
  origin_state ← read (λ text. bounded_uint text 8) log 0
  assert (origin_state == 4 || (origin_state == 5 || origin_state == 8)) Defect.origin_bad
  amount ← read uint log 1
  assert (ltb 0 amount) Defect.amount_zero
  challenge_id ← challenge_topic log
  entitlement_id ← read_topic non_zero_bytes32 log 2
  wallet ← read_topic non_zero_address log 3
  value (record {
    challenge_id = challenge_id;
    entitlement_id = entitlement_id;
    wallet = wallet;
    origin_state = origin_state;
    amount = amount;
  })
