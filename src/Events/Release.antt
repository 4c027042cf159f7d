-- ===== src/Events/Release.antt =====
-- tools/client/events.ts: the decoder of the declaration of a release.
use Prim.Native.Char.{code}
use challenge_escrow_protoco.Prelude.{
  ℕ, ◌*◌, ◌==◌, String, Bool, true, false, not, ◌&&◌, List, [], ◌∷◌, includes, str_eq, ltb,
}
use challenge_escrow_protoco.Observer.Types.{Log}
use challenge_escrow_protoco.Observer.Hex.{lower}
use challenge_escrow_protoco.Observer.Logs.{size}
use challenge_escrow_protoco.Events.Types.{Defect, ReleaseDeclared}
use challenge_escrow_protoco.Events.Exec.{Decoded, value, ◌>>=◌, ◌>>◌, assert}
use challenge_escrow_protoco.Events.Words.{
  word, head_words, uint, bounded_uint, bool_word, non_zero_address, topic, read, has_topics,
}
use challenge_escrow_protoco.Events.Texts.{DynamicString, dynamic_string, hex_bytes}

-- Whether a list of code points is a text.
unfoldable pub is_text : List ℕ → String → Bool
is_text [] String.[] = true
is_text (p ∷ ps) (String.◌∷◌ c s) = p == code c && is_text ps s
is_text _ _ = false

abbrev head_bytes : ℕ
head_bytes = 12 * 32

unfoldable pub distinct : List String → Bool
distinct [] = true
distinct (x ∷ xs) = not (includes xs x) && distinct xs

-- The assertions of `decodeReleaseDeclared` on the event that it has read, from a log at an address.
unfoldable pub check_release : String → ReleaseDeclared → Decoded ReleaseDeclared
unfolding is_text distinct
check_release address e = do
  assert (ltb 0 e.chain_id) Defect.no_chain
  assert (is_text e.event_protocol_id "challenge-escrow-event/v1") Defect.wrong_protocol
  assert (is_text e.protocol_version "challenge-escrow-protocol/v1") Defect.wrong_version
  assert (is_text e.challenge_schema_id "challenge-escrow.spec/v1") Defect.wrong_challenge_schema
  assert (is_text e.evidence_schema_id "challenge-escrow.evidence/v1") Defect.wrong_evidence_schema
  assert (str_eq e.escrow_contract (lower address)) Defect.wrong_contract
  assert (distinct (e.escrow_contract ∷ e.canonical_token ∷ e.resolver ∷ e.arbiter ∷ []))
      Defect.roles_overlap
  value e

-- The dynamic text of a head word, which must start where the one before it ends.
abbrev next_string : Log → ℕ → ℕ → Decoded DynamicString
next_string log index start = do
  offset ← word log.data_text index
  dynamic_string log.data_text offset head_bytes start

-- `decodeReleaseDeclared`
unfoldable pub decode_release_declared : Log → Decoded ReleaseDeclared
decode_release_declared log = do
  has_topics log 2
  head_words log.data_text 12
  protocol ← next_string log 0 head_bytes
  version ← next_string log 1 protocol.end
  challenge_schema ← next_string log 2 version.end
  evidence_schema ← next_string log 3 challenge_schema.end
  bytes ← hex_bytes log.data_text
  assert (evidence_schema.end == size bytes) Defect.trailing_data
  release_id ← topic log 1
  chain_id ← read uint log 4
  escrow_contract ← read non_zero_address log 5
  canonical_token ← read non_zero_address log 6
  token_decimals ← read (λ text. bounded_uint text 18) log 7
  value_mode ← read (λ text. bounded_uint text 0) log 8
  resolver ← read non_zero_address log 9
  arbiter ← read non_zero_address log 10
  initial_paused ← read bool_word log 11
  check_release log.address (record {
    release_id = release_id;
    event_protocol_id = protocol.text;
    protocol_version = version.text;
    challenge_schema_id = challenge_schema.text;
    evidence_schema_id = evidence_schema.text;
    chain_id = chain_id;
    escrow_contract = escrow_contract;
    canonical_token = canonical_token;
    token_decimals = token_decimals;
    value_mode = value_mode;
    resolver = resolver;
    arbiter = arbiter;
    initial_paused = initial_paused;
  })
