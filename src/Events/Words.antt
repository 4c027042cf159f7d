-- ===== src/Events/Words.antt =====
-- tools/client/events.ts: the words of ABI data, and the values that a word or a topic holds. What a
-- `Hex` text holds is taken to be hexadecimal where the source reads it with `BigInt`; any other text
-- is refused here, as `projectProtocolLogs` refuses it before it decodes.
use Prim.Native.Char.{code}
use Prim.Native.String.{count}
use challenge_escrow_protoco.Prelude.{
  ℕ, zero, suc, ◌+◌, ◌-◌, ◌*◌, ◌^◌, ◌%◌, ◌==◌, String, Bool, not, ◌&&◌, List, [], ◌∷◌, str_eq, ltb,
  leb, if◌then◌else◌,
}
use challenge_escrow_protoco.Model.Types.{Outcome, for_a, for_b, for_void}
use challenge_escrow_protoco.Observer.Types.{Log}
use challenge_escrow_protoco.Observer.Hex.{is_hash, all_hex, lower}
use challenge_escrow_protoco.Observer.Logs.{size}
use challenge_escrow_protoco.Observer.Headers.{max_uint64}
use challenge_escrow_protoco.Events.Types.{Defect, EventSide, on_a, on_b}
use challenge_escrow_protoco.Events.Exec.{Decoded, value, defective, ◌>>=◌, ◌>>◌, assert}

abbrev pub max_uint256 : ℕ
max_uint256 = 2 ^ 256 - 1

abbrev pub zero_hash_text : String
zero_hash_text = "0x0000000000000000000000000000000000000000000000000000000000000000"

abbrev pub zero_address_text : String
zero_address_text = "0x0000000000000000000000000000000000000000"

-- `text.slice(from)` and `text.slice(0, length)`
unfoldable pub drop_text : ℕ → String → String
drop_text zero s = s
drop_text (suc n) String.[] = String.[]
drop_text (suc n) (String.◌∷◌ c s) = drop_text n s

unfoldable pub take_text : ℕ → String → String
take_text zero s = String.[]
take_text (suc n) String.[] = String.[]
take_text (suc n) (String.◌∷◌ c s) = String.◌∷◌ c (take_text n s)

abbrev pub prefixed : String → String
prefixed s = String.◌∷◌ "0" (String.◌∷◌ "x" s)

-- The value of a hexadecimal digit.
unfoldable pub digit_value : ℕ → ℕ
digit_value n = if leb n 57 then n - 48 else if leb n 70 then n - 55 else n - 87

-- The number that a text of digits stands for, after the digits that were read.
unfoldable pub digits_value : ℕ → String → ℕ
digits_value n String.[] = n
digits_value n (String.◌∷◌ c s) = digits_value (n * 16 + digit_value (code c)) s

-- `word`
unfoldable pub word : String → ℕ → Decoded String
word text index = do
  let start = 2 + index * 64
  assert (leb (start + 64) (count text)) Defect.truncated_word
  value (prefixed (lower (take_text 64 (drop_text start text))))

-- `words`
unfoldable pub words : String → ℕ → Decoded (Unit {0})
words text expected = assert (count text == 2 + expected * 64) Defect.word_count

-- `headWords`; the subtraction is on texts that are at least as long.
unfoldable pub head_words : String → ℕ → Decoded (Unit {0})
head_words text expected =
    assert (leb (2 + expected * 64) (count text) && (count text - 2) % 64 == 0) Defect.unaligned

-- `bytes32`
unfoldable pub bytes32 : String → Decoded String
bytes32 text = do assert (is_hash text) Defect.not_bytes32; value (lower text)

-- `uint`
unfoldable pub uint : String → Decoded ℕ
uint (String.◌∷◌ c (String.◌∷◌ d s)) =
    if code c == 48 && (code d == 120 && (ltb 0 (count s) && all_hex s))
    then value (digits_value 0 s)
    else defective Defect.not_a_number
uint _ = defective Defect.not_a_number

-- `uint64`
unfoldable pub uint64 : String → Decoded ℕ
uint64 text = do
  parsed ← uint text
  assert (leb parsed max_uint64) Defect.above_uint64
  value parsed

-- `boundedUint`
unfoldable pub bounded_uint : String → ℕ → Decoded ℕ
bounded_uint text maximum = do
  parsed ← uint text
  assert (leb parsed maximum) Defect.outside_enum
  value parsed

-- `bool`
unfoldable pub bool_word : String → Decoded Bool
bool_word text = do parsed ← uint text; assert (leb parsed 1) Defect.not_a_bool; value (parsed == 1)

-- `addressWord`
unfoldable pub address_word : String → Decoded String
address_word text = do
  assert (str_eq (take_text 24 (drop_text 2 text)) "000000000000000000000000") Defect.padded_address
  value (lower (prefixed (drop_text (count text - 40) text)))

abbrev nth_topic : List String → ℕ → Decoded String
nth_topic [] n = defective Defect.topic_missing
nth_topic (t ∷ ts) zero = value t
nth_topic (t ∷ ts) (suc n) = nth_topic ts n

-- `topic`
unfoldable pub topic : Log → ℕ → Decoded String
topic log index = do text ← nth_topic log.topics index; bytes32 text

-- `nonZeroBytes32`
unfoldable pub non_zero_bytes32 : String → Decoded String
non_zero_bytes32 text = do
  parsed ← bytes32 text
  assert (not (str_eq parsed zero_hash_text)) Defect.zero_hash
  value parsed

-- `nonZeroAddress`
unfoldable pub non_zero_address : String → Decoded String
non_zero_address text = do
  parsed ← address_word text
  assert (not (str_eq parsed zero_address_text)) Defect.zero_address
  value parsed

-- `challengeTopic`
unfoldable pub challenge_topic : Log → Decoded String
challenge_topic log = do text ← topic log 1; non_zero_bytes32 text

-- `side`
unfoldable pub side : String → Decoded EventSide
side text = do parsed ← bounded_uint text 1; value (if parsed == 0 then on_a else on_b)

-- `outcome`
unfoldable pub outcome : String → Decoded Outcome
outcome text = do
  parsed ← bounded_uint text 2
  value (if parsed == 0 then for_a else if parsed == 1 then for_b else for_void)

abbrev pub highest_reason : Outcome → ℕ
highest_reason for_void = 5
highest_reason _ = 3

-- `reasonCode`
unfoldable pub reason_code : String → Outcome → Decoded ℕ
reason_code text asserted = bounded_uint text (highest_reason asserted)

-- The word of a log's data at an index, read as a value.
unfoldable pub read : {A : Type 0} → (String → Decoded A) → Log → ℕ → Decoded A
read convert log index = do text ← word log.data_text index; convert text

-- A topic of a log, read as a value.
unfoldable pub read_topic : {A : Type 0} → (String → Decoded A) → Log → ℕ → Decoded A
read_topic convert log index = do text ← topic log index; convert text

-- `log.topics.length === count`
unfoldable pub has_topics : Log → ℕ → Decoded (Unit {0})
has_topics log expected = assert (size log.topics == expected) Defect.topic_count
