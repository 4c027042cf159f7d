-- ===== src/Keccak/Shape.antt =====
-- tools/client/keccak.ts: the shape of a hash, and bytes read back from their digits.
use Prim.Native.Char.{Char, code}
use Prim.Native.String.{String, count}
use Prim.Native.String.count.{cons as count_cons}
use challenge_escrow_protoco.Prelude.{
  ℕ, zero, suc, ◌+◌, ◌*◌, ◌/◌, ◌%◌, ◌<◌, ◌==◌, ◌≡◌, refl, ap, subst, ◌∙◌, Bool, true, ◌&&◌,
  Bool-cases, inl, inr, ◌||◌, some, List, [], ◌∷◌, ◌++◌, arith, leb,
}
use challenge_escrow_protoco.Observer.Hex.{is_hex, all_hex, is_hash, is_data, lower, lower_char}
use challenge_escrow_protoco.Observer.Logs.{size}
use challenge_escrow_protoco.Events.Words.{digit_value}
use challenge_escrow_protoco.Events.Texts.{pairs, unprefixed}
use challenge_escrow_protoco.Keccak.{
  table, hex_char, hex_digits, bytes_to_hex, digest_byte, keccak256, padded, absorb, rate_bytes,
  ascii_bytes, preimage, hash_of, strict_hex_bytes, compute_entitlement_id,
}

size-table : (n i : ℕ) (f : ℕ → ℕ) → size (table n i f) ≡ n
size-table zero i f = refl
size-table (suc n) i f = omega (arith, size-table n (i + 1) f)

-- Every number of a list is a byte.
unfoldable pub IsBytes : List ℕ → Type 0
IsBytes [] = Unit {0}
IsBytes (b ∷ bs) = (b < 256) × IsBytes bs

-- A test holds of every number below a bound.
below : ℕ → (ℕ → Bool) → Bool
below zero p = true
below (suc n) p = p n && below n p

below-at : (k : ℕ) (p : ℕ → Bool) (n : ℕ) → below k p ≡ true → n < k → p n ≡ true
unfolding below
below-at zero p n all small = absurd (ground arith)
below-at (suc k) p n all small = elim (Bool-cases (n == k)) [
  | inl e ↦ let same : n ≡ k = ground arith in rw same (ground arith)
  | inr e ↦ below-at k p n (ground arith) (ground arith)
]

-- The digit of a number is one that the pattern of a hash admits, in lower case, and has its value.
unfoldable is_digit : ℕ → Bool
unfolding hex_char digit_value
is_digit n =
    let c = code (hex_char n) in is_hex c && ((leb c 64 || leb 71 c) && (digit_value c == n))

digits : below 16 is_digit ≡ true
unfolding below is_digit
digits = refl

lower_char-fixed : (c : Char) → (leb (code c) 64 || leb 71 (code c)) ≡ true → lower_char c ≡ c
lower_char-fixed c other = ground arith

digit : (n : ℕ) → n < 16 → is_digit n ≡ true
digit n small = below-at 16 is_digit n digits small

all_hex-hex_digits : (bs : List ℕ) → IsBytes bs → all_hex (hex_digits bs) ≡ true
unfolding all_hex hex_digits IsBytes is_digit
all_hex-hex_digits [] bytes = refl
all_hex-hex_digits (b ∷ bs) (byte, bytes) =
    let high = digit (b / 16) (omega arith) in
    let low = digit (b % 16) (omega arith) in ground (arith, all_hex-hex_digits bs bytes)

lower-digit : (n : ℕ) → n < 16 → lower_char (hex_char n) ≡ hex_char n
unfolding is_digit
lower-digit n small = let d = digit n small in lower_char-fixed (hex_char n) (ground arith)

lower-hex_digits : (bs : List ℕ) → IsBytes bs → lower (hex_digits bs) ≡ hex_digits bs
unfolding lower hex_digits IsBytes
lower-hex_digits [] bytes = refl
lower-hex_digits (b ∷ bs) (byte, bytes) =
    rw
      (
        lower-digit (b / 16) (omega arith),
        lower-digit (b % 16) (omega arith),
        lower-hex_digits bs bytes,
      )
      refl

count-hex_digits : (bs : List ℕ) → count (hex_digits bs) ≡ size bs * 2
unfolding hex_digits
count-hex_digits [] = refl
count-hex_digits (b ∷ bs) =
    count_cons (hex_char (b / 16)) _
    ∙ ap suc (count_cons (hex_char (b % 16)) (hex_digits bs))
    ∙ ap (λ n. suc (suc n)) (count-hex_digits bs)
    ∙ (omega arith)

value-digit : (n : ℕ) → n < 16 → digit_value (code (hex_char n)) ≡ n
unfolding is_digit
value-digit n small =
    let holds : is_digit n ≡ true = digit n small in
    let same : (digit_value (code (hex_char n)) == n) ≡ true = ground (arith, holds) in
    ground (arith, same)

pairs-hex_digits : (bs : List ℕ) → IsBytes bs → pairs (hex_digits bs) ≡ bs
unfolding hex_digits IsBytes
pairs-hex_digits [] bytes = refl
pairs-hex_digits (b ∷ bs) (byte, bytes) =
    let same : b / 16 * 16 + b % 16 ≡ b = omega arith in
    rw
      (
        value-digit (b / 16) (omega arith),
        value-digit (b % 16) (omega arith),
        same,
        pairs-hex_digits bs bytes,
      )
      refl

count-bytes_to_hex : (bs : List ℕ) → count (bytes_to_hex bs) ≡ 2 + size bs * 2
unfolding bytes_to_hex
count-bytes_to_hex bs =
    count_cons "0" (String.◌∷◌ "x" (hex_digits bs))
    ∙ ap suc (count_cons "x" (hex_digits bs))
    ∙ ap (λ n. suc (suc n)) (count-hex_digits bs)
    ∙ (omega arith)

is_data-bytes_to_hex : (bs : List ℕ) → IsBytes bs → is_data (bytes_to_hex bs) ≡ true
unfolding is_data bytes_to_hex
is_data-bytes_to_hex bs bytes = ground (arith, all_hex-hex_digits bs bytes, count-hex_digits bs)

pairs-bytes_to_hex : (bs : List ℕ) → IsBytes bs → pairs (unprefixed (bytes_to_hex bs)) ≡ bs
unfolding bytes_to_hex
pairs-bytes_to_hex bs bytes = pairs-hex_digits bs bytes

-- A list of bytes, written in hexadecimal by `bytesToHex`, is read back by `strictHexBytes` at its
-- length.
strict_hex_bytes-bytes_to_hex :
    (bs : List ℕ) → IsBytes bs → strict_hex_bytes (bytes_to_hex bs) (size bs) ≡ some bs
unfolding strict_hex_bytes
strict_hex_bytes-bytes_to_hex bs bytes =
    let whole : is_data (bytes_to_hex bs) ≡ true = is_data-bytes_to_hex bs bytes in
    let same : (2 + size bs * 2 == 2 + size bs * 2) ≡ true = ground arith in
    rw (whole, count-bytes_to_hex bs, same, pairs-bytes_to_hex bs bytes) refl

IsBytes-table : (n i : ℕ) (f : ℕ → ℕ) → ((j : ℕ) → f j < 256) → IsBytes (table n i f)
unfolding IsBytes
IsBytes-table zero i f small = tt
IsBytes-table (suc n) i f small = (small i, IsBytes-table n (i + 1) f small)

-- A text matches the pattern of a hash, in lower case.
unfoldable pub IsHash : String → Type 0
IsHash h = (is_hash h ≡ true) × (lower h ≡ h)

bytes_to_hex-IsHash : (bs : List ℕ) → IsBytes bs → size bs ≡ 32 → IsHash (bytes_to_hex bs)
unfolding IsHash bytes_to_hex is_hash lower
bytes_to_hex-IsHash bs bytes whole = (
  ground (arith, all_hex-hex_digits bs bytes, count-hex_digits bs),
  rw (lower-hex_digits bs bytes) refl,
)

keccak256-IsHash : (bs : List ℕ) → IsHash (keccak256 bs)
unfolding keccak256 digest_byte
keccak256-IsHash bs =
    let text = padded bs in
    let digest = digest_byte (absorb (size text / rate_bytes) text (table 25 0 (λ i. 0))) in
    bytes_to_hex-IsHash (table 32 0 digest) (IsBytes-table 32 0 digest (λ j. omega arith))
      (size-table 32 0 digest)

hash_of-read :
    (challenge wallet : String) (cs ws : List ℕ)
    → strict_hex_bytes challenge 32 ≡ some cs
    → strict_hex_bytes wallet 20 ≡ some ws
    → compute_entitlement_id challenge wallet ≡ some (keccak256 (preimage cs ws))
unfolding compute_entitlement_id hash_of
hash_of-read challenge wallet cs ws c w = rw (c, w) refl

-- For a challenge of 32 bytes and a wallet of 20, given in hexadecimal, `computeEntitlementId` returns,
-- without an exception, the Keccak-256 hash of the bytes of the domain, a zero byte, the bytes of the
-- challenge and those of the wallet, in this order; and it matches the pattern of a hash, in lower case.
pub compute_entitlement_id-bytes_to_hex :
    (cs ws : List ℕ)
    → IsBytes cs
    → IsBytes ws
    → size cs ≡ 32
    → size ws ≡ 20
    → let id = keccak256 (ascii_bytes "challenge-escrow.entitlement-id/v1" ++ (0 ∷ (cs ++ ws))) in
      (compute_entitlement_id (bytes_to_hex cs) (bytes_to_hex ws) ≡ some id) × IsHash id
compute_entitlement_id-bytes_to_hex cs ws c w long short = (
  hash_of-read (bytes_to_hex cs) (bytes_to_hex ws) cs ws
      (subst (λ n. strict_hex_bytes (bytes_to_hex cs) n ≡ some cs) long
        (strict_hex_bytes-bytes_to_hex cs c))
      (subst (λ n. strict_hex_bytes (bytes_to_hex ws) n ≡ some ws) short
        (strict_hex_bytes-bytes_to_hex ws w)),
  keccak256-IsHash (preimage cs ws),
)
