-- ===== src/Events/Texts.antt =====
-- tools/client/events.ts: the bytes of ABI data, UTF-8 as `TextDecoder` reads it, and dynamic texts.
use Prim.Native.Char.{code}
use challenge_escrow_protoco.Prelude.{
  ℕ, zero, suc, ◌+◌, ◌-◌, ◌*◌, ◌/◌, ◌%◌, ◌^◌, ◌==◌, String, Bool, true, ◌&&◌, Option, none, some,
  List, [], ◌∷◌, leb, if◌then◌else◌,
}
use challenge_escrow_protoco.Observer.Hex.{is_data}
use challenge_escrow_protoco.Observer.Logs.{size}
use challenge_escrow_protoco.Events.Types.{Defect}
use challenge_escrow_protoco.Events.Exec.{Decoded, value, defective, ◌>>=◌, ◌>>◌, assert}
use challenge_escrow_protoco.Events.Words.{word, uint, digit_value}

-- The bytes that a text of digits stands for.
abbrev pub pairs : String → List ℕ
pairs (String.◌∷◌ c (String.◌∷◌ d s)) = (digit_value (code c) * 16 + digit_value (code d)) ∷ pairs s
pairs _ = []

abbrev pub unprefixed : String → String
unprefixed (String.◌∷◌ c (String.◌∷◌ d s)) = s
unprefixed _ = String.[]

-- `hexBytes`
unfoldable pub hex_bytes : String → Decoded (List ℕ)
unfolding digit_value
hex_bytes text = do assert (is_data text) Defect.uneven_hex; value (pairs (unprefixed text))

abbrev drop_bytes : ℕ → List ℕ → List ℕ
drop_bytes zero bs = bs
drop_bytes (suc n) [] = []
drop_bytes (suc n) (b ∷ bs) = drop_bytes n bs

abbrev take_bytes : ℕ → List ℕ → List ℕ
take_bytes zero bs = []
take_bytes (suc n) [] = []
take_bytes (suc n) (b ∷ bs) = b ∷ take_bytes n bs

abbrev are_zero : List ℕ → Bool
are_zero [] = true
are_zero (b ∷ bs) = b == 0 && are_zero bs

-- What a UTF-8 decoder does with a byte: it has a code point, it waits for bytes between two bounds, or
-- it fails.
pub data Utf8Step : Type 0 where
  point : ℕ → Utf8Step
  more : ℕ → ℕ → ℕ → ℕ → Utf8Step
  stop : Utf8Step

abbrev first_byte : ℕ → Utf8Step
first_byte b =
    if leb b 127
    then point b
    else if leb b 193
    then stop
    else if leb b 223
    then more 1 128 191 (b - 192)
    else if leb b 239
    then more 2 (if b == 224 then 160 else 128) (if b == 237 then 159 else 191) (b - 224)
    else if leb b 244
    then more 3 (if b == 240 then 144 else 128) (if b == 244 then 143 else 191) (b - 240)
    else stop

-- A later byte, where the number of bytes that follow it is given.
abbrev later_byte : ℕ → ℕ → ℕ → ℕ → ℕ → Utf8Step
later_byte missing lowest highest bits b =
    if leb lowest b && leb b highest
    then (if missing == 0
        then point (bits * 64 + (b - 128))
        else more missing 128 191 (bits * 64 + (b - 128)))
    else stop

abbrev with_point : ℕ → Option (List ℕ) → Option (List ℕ)
with_point p none = none
with_point p (some ps) = some (p ∷ ps)

-- The code points of bytes, where a number of bytes is waited for.
unfoldable pub code_points : ℕ → ℕ → ℕ → ℕ → List ℕ → Option (List ℕ)
code_points zero lowest highest bits [] = some []
code_points (suc missing) lowest highest bits [] = none
code_points zero lowest highest bits (b ∷ bs) = elim (first_byte b) [
  | point p ↦ with_point p (code_points 0 128 191 0 bs)
  | more n l h v ↦ code_points n l h v bs
  | stop ↦ none
]
code_points (suc missing) lowest highest bits (b ∷ bs) =
    elim (later_byte missing lowest highest bits b) [
      | point p ↦ with_point p (code_points 0 128 191 0 bs)
      | more n l h v ↦ code_points n l h v bs
      | stop ↦ none
    ]

-- `TextDecoder` drops a byte order mark.
abbrev without_mark : Option (List ℕ) → Decoded (List ℕ)
without_mark none = defective Defect.not_utf8
without_mark (some []) = value []
without_mark (some (p ∷ ps)) = if p == 65279 then value ps else value (p ∷ ps)

-- `decodeUtf8`
unfoldable pub decode_utf8 : List ℕ → Decoded (List ℕ)
decode_utf8 bytes = without_mark (code_points 0 128 191 0 bytes)

abbrev max_safe_integer : ℕ
max_safe_integer = 2 ^ 53 - 1

pub record DynamicString : Type 0 where
  pub text : List ℕ
  pub end : ℕ

-- `dynamicString`
unfoldable pub dynamic_string : String → String → ℕ → ℕ → Decoded DynamicString
dynamic_string data_text offset_word head_bytes expected_start = do
  bytes ← hex_bytes data_text
  start ← uint offset_word
  assert (leb start max_safe_integer) Defect.offset_unsafe
  assert
      (start == expected_start
        && (leb head_bytes start && (start % 32 == 0 && leb (start + 32) (size bytes))))
      Defect.offset_bad
  length_word ← word data_text (start / 32)
  payload_length ← uint length_word
  assert (leb payload_length max_safe_integer) Defect.length_unsafe
  let payload_start = start + 32
  let padded_length = (payload_length + 31) / 32 * 32
  assert (leb (payload_start + padded_length) (size bytes)) Defect.payload_truncated
  let payload = take_bytes payload_length (drop_bytes payload_start bytes)
  let padding =
      take_bytes (padded_length - payload_length)
        (drop_bytes (payload_start + payload_length) bytes)
  assert (are_zero padding) Defect.padding_bad
  text ← decode_utf8 payload
  value (record { text = text; end = payload_start + padded_length })
