-- ===== src/Observer/Hex.antt =====
-- tools/client/observer.ts: the patterns of hashes, addresses and data, and `toLowerCase` on texts that
-- match them, whose letters are A to F.
use Prim.Native.Char.{Char, code}
use challenge_escrow_protoco.Prelude.{
  ℕ, ◌%◌, String, Bool, true, false, ◌&&◌, ◌||◌, leb, ◌==◌, if◌then◌else◌,
}
use Prim.Native.String.{count}

abbrev pub is_hex : ℕ → Bool
is_hex n = (leb 48 n && leb n 57) || (leb 65 n && leb n 70) || (leb 97 n && leb n 102)

unfoldable pub all_hex : String → Bool
all_hex String.[] = true
all_hex (String.◌∷◌ c s) = is_hex (code c) && all_hex s

-- `0x` and hexadecimal digits, as many as the test allows
abbrev matches : (ℕ → Bool) → String → Bool
matches allowed (String.◌∷◌ c (String.◌∷◌ d s)) =
    code c == 48 && (code d == 120 && (all_hex s && allowed (count s)))
matches allowed _ = false

-- `HASH_PATTERN`
unfoldable pub is_hash : String → Bool
is_hash s = matches (λ n. n == 64) s

-- `ADDRESS_PATTERN`
unfoldable pub is_address : String → Bool
is_address s = matches (λ n. n == 40) s

-- `DATA_PATTERN`
unfoldable pub is_data : String → Bool
is_data s = matches (λ n. n % 2 == 0) s

abbrev pub lower_char : Char → Char
lower_char c =
    if code c == 65
    then "a"
    else if code c == 66
    then "b"
    else if code c == 67
    then "c"
    else if code c == 68
    then "d"
    else if code c == 69
    then "e"
    else if code c == 70
    then "f"
    else c

-- `toLowerCase`
unfoldable pub lower : String → String
lower String.[] = String.[]
lower (String.◌∷◌ c s) = String.◌∷◌ (lower_char c) (lower s)
