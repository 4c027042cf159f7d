-- ===== src/Portable/Patterns.antt =====
-- tools/portable/canonical.mjs: the patterns of the texts in a condition.
use Prim.Native.Char.{code}
use Prim.Native.String.{count}
use challenge_escrow_protoco.Prelude.{
  ℕ, ◌+◌, ◌==◌, String, Bool, true, false, ◌&&◌, ◌||◌, Option, none, some, str_eq, ltb, leb,
  if◌then◌else◌,
}

abbrev is_digit : ℕ → Bool
is_digit n = leb 48 n && leb n 57

unfoldable pub all_digits : String → Bool
all_digits String.[] = true
all_digits (String.◌∷◌ c s) = is_digit (code c) && all_digits s

-- `0|[1-9][0-9]*`
unfoldable pub is_whole : String → Bool
unfolding all_digits
is_whole String.[] = false
is_whole (String.◌∷◌ c s) =
    (code c == 48 && str_eq s "") || (leb 49 (code c) && (leb (code c) 57 && all_digits s))

-- The text without its sign, and whether it has one.
abbrev pub unsigned : String → String
unsigned String.[] = ""
unsigned (String.◌∷◌ c s) = if code c == 45 then s else String.◌∷◌ c s

abbrev pub is_negative : String → Bool
is_negative String.[] = false
is_negative (String.◌∷◌ c s) = code c == 45

-- The parts of a text before and after its first point; `none` where it has no point.
unfoldable pub before_point : String → String
before_point String.[] = ""
before_point (String.◌∷◌ c s) = if code c == 46 then "" else String.◌∷◌ c (before_point s)

unfoldable pub after_point : String → Option String
after_point String.[] = none
after_point (String.◌∷◌ c s) = if code c == 46 then some s else after_point s

-- `INTEGER_PATTERN`
unfoldable pub is_integer : String → Bool
is_integer s = is_whole (unsigned s)

unfoldable pub is_fraction : Option String → Bool
unfolding all_digits
is_fraction none = false
is_fraction (some s) = ltb 0 (count s) && all_digits s

-- `DECIMAL_PATTERN`
unfoldable pub is_decimal : String → Bool
unfolding before_point after_point
is_decimal s = is_whole (unsigned (before_point s)) && is_fraction (after_point s)

-- `TIMESTAMP_PATTERN`
unfoldable pub is_timestamp : String → Bool
unfolding all_digits
is_timestamp s = ltb 0 (count s) && (leb (count s) 20 && all_digits s)

-- The length of a text in JavaScript: a character above U+FFFF has two units.
unfoldable pub units : String → ℕ
units String.[] = 0
units (String.◌∷◌ c s) = (if ltb 65535 (code c) then 2 else 1) + units s

-- `[A-Za-z0-9._~-]`
abbrev is_id_char : ℕ → Bool
is_id_char n =
    is_digit n
    || ((leb 65 n && leb n 90)
        || ((leb 97 n && leb n 122) || (n == 46 || (n == 95 || (n == 126 || n == 45)))))

-- The longest beginning of a text in characters of an id, and the rest.
unfoldable pub id_part : String → String
id_part String.[] = ""
id_part (String.◌∷◌ c s) = if is_id_char (code c) then String.◌∷◌ c (id_part s) else ""

unfoldable pub id_rest : String → String
id_rest String.[] = ""
id_rest (String.◌∷◌ c s) = if is_id_char (code c) then id_rest s else String.◌∷◌ c s

-- What follows a beginning in a text.
unfoldable pub after_prefix : String → String → Option String
after_prefix String.[] s = some s
after_prefix (String.◌∷◌ c p) String.[] = none
after_prefix (String.◌∷◌ c p) (String.◌∷◌ d s) = if code c == code d then after_prefix p s else none

unfoldable pub referred : Option String → Option String
unfolding id_part id_rest
referred none = none
referred (some s) =
    if ltb 0 (count (id_part s)) && (leb (count (id_part s)) 64 && str_eq (id_rest s) "/value")
    then some (id_part s)
    else none

-- `REF_PATTERN`, with the id that it captures in `resolveValue`. No character of an id is a slash, so
-- the longest beginning is the one that can match.
unfoldable pub ref_id : String → Option String
unfolding after_prefix
ref_id s = referred (after_prefix "/observations/" s)
