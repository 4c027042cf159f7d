-- ===== src/Keccak.antt =====
-- tools/client/keccak.ts: Keccak-256 on lanes of 64 bits, and the id of an entitlement. A lane is a
-- natural number; `& MASK_64` is the remainder by 2 ^ 64, and the complement of a lane is taken in 64
-- bits, which is what the mask leaves of it.
pub mod Shape
use Prim.Native.Nat.{bit_and, bit_or, bit_xor}
use Prim.Native.Char.{Char, code}
use Prim.Native.String.{count}
use challenge_escrow_protoco.Prelude.{
  ℕ, zero, suc, ◌+◌, ◌-◌, ◌*◌, ◌/◌, ◌%◌, ◌^◌, ◌==◌, String, Bool, ◌&&◌, Option, none, some, List,
  [], ◌∷◌, ◌++◌, leb, if◌then◌else◌,
}
use challenge_escrow_protoco.Observer.Hex.{is_data}
use challenge_escrow_protoco.Observer.Logs.{size}
use challenge_escrow_protoco.Events.Texts.{pairs, unprefixed}

abbrev lane_mod : ℕ
lane_mod = 2 ^ 64

-- `RATE_BYTES`
abbrev pub rate_bytes : ℕ
rate_bytes = 136

abbrev rotation_offsets : List ℕ
rotation_offsets =
    0 ∷ 1 ∷ 62 ∷ 28 ∷ 27 ∷ 36 ∷ 44 ∷ 6 ∷ 55 ∷ 20 ∷ 3 ∷ 10 ∷ 43 ∷ 25 ∷ 39 ∷ 41 ∷ 45 ∷ 15 ∷ 21 ∷ 8
    ∷ 18 ∷ 2 ∷ 61 ∷ 56 ∷ 14 ∷ []

abbrev round_constants : List ℕ
round_constants =
    0x0000000000000001 ∷ 0x0000000000008082 ∷ 0x800000000000808a ∷ 0x8000000080008000
    ∷ 0x000000000000808b ∷ 0x0000000080000001 ∷ 0x8000000080008081 ∷ 0x8000000000008009
    ∷ 0x000000000000008a ∷ 0x0000000000000088 ∷ 0x0000000080008009 ∷ 0x000000008000000a
    ∷ 0x000000008000808b ∷ 0x800000000000008b ∷ 0x8000000000008089 ∷ 0x8000000000008003
    ∷ 0x8000000000008002 ∷ 0x8000000000000080 ∷ 0x000000000000800a ∷ 0x800000008000000a
    ∷ 0x8000000080008081 ∷ 0x8000000000008080 ∷ 0x0000000080000001 ∷ 0x8000000080008008 ∷ []

-- `list[index]` in bounds, and its assignment
abbrev pub nth : List ℕ → ℕ → ℕ
nth [] i = 0
nth (x ∷ xs) zero = x
nth (x ∷ xs) (suc i) = nth xs i

abbrev pub set_nth : List ℕ → ℕ → ℕ → List ℕ
set_nth [] i v = []
set_nth (x ∷ xs) zero v = v ∷ xs
set_nth (x ∷ xs) (suc i) v = x ∷ set_nth xs i v

-- The list of a function's values from an index on.
abbrev pub table : ℕ → ℕ → (ℕ → ℕ) → List ℕ
table zero i f = []
table (suc n) i f = f i ∷ table n (i + 1) f

-- `rotateLeft`
unfoldable pub rotate_left : ℕ → ℕ → ℕ
rotate_left value offset =
    if offset == 0
    then value
    else bit_or (value * 2 ^ offset) (value / 2 ^ (64 - offset)) % lane_mod

abbrev pub column : List ℕ → ℕ → ℕ
column state x = bit_xor (nth state x) (
    bit_xor (nth state (x + 5))
      (bit_xor (nth state (x + 10)) (bit_xor (nth state (x + 15)) (nth state (x + 20)))))

abbrev pub delta : List ℕ → ℕ → ℕ
unfolding rotate_left
delta columns x = bit_xor (nth columns ((x + 4) % 5)) (rotate_left (nth columns ((x + 1) % 5)) 1)

-- The first loops of a round.
unfoldable pub spread : List ℕ → List ℕ
unfolding delta
spread state =
    let columns = table 5 0 (column state) in
    table 25 0 (λ i. bit_xor (nth state i) (delta columns (i % 5)) % lane_mod)

-- The loop that moves the lanes: lane `x + 5 * y` goes to `y + 5 * ((2 * x + 3 * y) % 5)`.
abbrev pub move_lanes : ℕ → ℕ → List ℕ → List ℕ → List ℕ
unfolding rotate_left
move_lanes zero i state mixed = mixed
move_lanes (suc n) i state mixed = move_lanes n (i + 1) state (
    set_nth mixed (i / 5 + 5 * ((2 * (i % 5) + 3 * (i / 5)) % 5))
      (rotate_left (nth state i) (nth rotation_offsets i)))

unfoldable pub mix : List ℕ → List ℕ
unfolding move_lanes
mix state = move_lanes 25 0 state (table 25 0 (λ i. 0))

-- The last loops of a round.
unfoldable pub combine : List ℕ → List ℕ
combine mixed = table 25 0 (λ i.
    bit_xor (nth mixed i) (
      bit_and (lane_mod - 1 - nth mixed ((i % 5 + 1) % 5 + 5 * (i / 5)))
        (nth mixed ((i % 5 + 2) % 5 + 5 * (i / 5))))
    % lane_mod)

unfoldable pub add_constant : ℕ → List ℕ → List ℕ
add_constant constant [] = []
add_constant constant (x ∷ xs) = (bit_xor x constant % lane_mod) ∷ xs

-- `permute`
unfoldable pub rounds : List ℕ → List ℕ → List ℕ
unfolding spread mix combine add_constant
rounds [] state = state
rounds (c ∷ cs) state = rounds cs (add_constant c (combine (mix (spread state))))

unfoldable pub permute : List ℕ → List ℕ
unfolding rounds
permute state = rounds round_constants state

-- The bytes of a block, each added to its lane.
unfoldable pub absorb_bytes : List ℕ → ℕ → List ℕ → List ℕ
absorb_bytes [] index state = state
absorb_bytes (b ∷ bs) index state =
    absorb_bytes bs (index + 1)
      (set_nth state (index / 8) (bit_xor (nth state (index / 8)) (b * 2 ^ (index % 8 * 8))))

-- The loop over the blocks of the padded input, by their number.
abbrev pub take_block : ℕ → List ℕ → List ℕ
take_block zero bs = []
take_block (suc n) [] = []
take_block (suc n) (b ∷ bs) = b ∷ take_block n bs

abbrev pub drop_block : ℕ → List ℕ → List ℕ
drop_block zero bs = bs
drop_block (suc n) [] = []
drop_block (suc n) (b ∷ bs) = drop_block n bs

unfoldable pub absorb : ℕ → List ℕ → List ℕ → List ℕ
unfolding permute absorb_bytes
absorb zero padded state = state
absorb (suc n) padded state =
    absorb n (drop_block rate_bytes padded)
      (permute (absorb_bytes (take_block rate_bytes padded) 0 state))

-- The padded input: a byte 1, zeros, and the highest bit of the last byte.
unfoldable pub padded : List ℕ → List ℕ
padded input =
    let blocks = (size input + 1 + (rate_bytes - 1)) / rate_bytes in
    let length = blocks * rate_bytes in
    let plain = input ++ (1 ∷ table (length - size input - 1) 0 (λ i. 0)) in
    set_nth plain (length - 1) (bit_or (nth plain (length - 1)) 0x80)

-- The byte of the digest at an index.
unfoldable pub digest_byte : List ℕ → ℕ → ℕ
digest_byte state index = nth state (index / 8) / 2 ^ (index % 8 * 8) % 256

-- The character of a text at an index.
abbrev pub digit_at : String → ℕ → Char
digit_at String.[] n = "0"
digit_at (String.◌∷◌ c s) zero = c
digit_at (String.◌∷◌ c s) (suc n) = digit_at s n

-- `byte.toString(16)`, a digit of it
unfoldable pub hex_char : ℕ → Char
hex_char n = digit_at "0123456789abcdef" n

-- `bytesToHex`, without and with its prefix
unfoldable pub hex_digits : List ℕ → String
unfolding hex_char
hex_digits [] = String.[]
hex_digits (b ∷ bs) =
    String.◌∷◌ (hex_char (b / 16)) (String.◌∷◌ (hex_char (b % 16)) (hex_digits bs))

unfoldable pub bytes_to_hex : List ℕ → String
unfolding hex_digits
bytes_to_hex bs = String.◌∷◌ "0" (String.◌∷◌ "x" (hex_digits bs))

-- `keccak256`
unfoldable pub keccak256 : List ℕ → String
unfolding padded absorb digest_byte bytes_to_hex
keccak256 input =
    let text = padded input in
    let state = absorb (size text / rate_bytes) text (table 25 0 (λ i. 0)) in
    bytes_to_hex (table 32 0 (digest_byte state))

-- `strictHexBytes`: `none` where it throws.
unfoldable pub strict_hex_bytes : String → ℕ → Option (List ℕ)
strict_hex_bytes text bytes =
    if is_data text && count text == 2 + bytes * 2 then some (pairs (unprefixed text)) else none

-- `TextEncoder`, on a text of ASCII
abbrev pub ascii_bytes : String → List ℕ
ascii_bytes String.[] = []
ascii_bytes (String.◌∷◌ c s) = code c ∷ ascii_bytes s

-- `preimage`: the domain, a zero, the challenge and the wallet.
abbrev pub preimage : List ℕ → List ℕ → List ℕ
preimage challenge participant =
    ascii_bytes "challenge-escrow.entitlement-id/v1" ++ (0 ∷ (challenge ++ participant))

abbrev pub hash_of : Option (List ℕ) → Option (List ℕ) → Option String
unfolding keccak256
hash_of (some challenge) (some participant) = some (keccak256 (preimage challenge participant))
hash_of _ _ = none

-- `computeEntitlementId`
unfoldable pub compute_entitlement_id : String → String → Option String
unfolding strict_hex_bytes hash_of
compute_entitlement_id challenge_id wallet =
    hash_of (strict_hex_bytes challenge_id 32) (strict_hex_bytes wallet 20)
