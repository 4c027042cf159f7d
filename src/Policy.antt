-- ===== src/Policy.antt =====
-- tools/operations/authority-policy.mjs: the policy of an authority, with its fields read as texts, and
-- its checks: each `requireValue` is a condition with the code that it throws, in the order of the code.
pub mod Roles
pub mod Validate
pub mod Incidents
use Prim.Native.Char.{code}
use Prim.Native.String.{count}
use challenge_escrow_protoco.Prelude.{
  ℕ, ◌+◌, ◌-◌, ◌*◌, ◌^◌, ◌==◌, String, Bool, true, false, not, ◌&&◌, ◌||◌, Option, none, some, List,
  [], ◌∷◌, ◌++◌, ltb, leb, str_eq, includes, is_null, if◌then◌else◌,
}
use challenge_escrow_protoco.Observer.Hex.{all_hex, is_hash, lower}
use challenge_escrow_protoco.Observer.Logs.{size}
use challenge_escrow_protoco.Portable.Patterns.{is_whole}
use challenge_escrow_protoco.Portable.Evaluate.{Order, below, decimal_value, compare_code_points}

pub data PolicyCode : Type 0 where
  non_canonical_decimal decimal_range invalid_hash invalid_fingerprint zero_member wrong_schema :
      PolicyCode
  wrong_policy_id lineage_mismatch validity_window role_set role_order unsafe_threshold : PolicyCode
  member_count invalid_threshold custody_class duplicate_member member_order : PolicyCode
  custody_concentration cross_role_overlap capability_boundary rotation_window : PolicyCode
  stale_epoch policy_expired policy_hash_mismatch : PolicyCode

pub record Member : Type 0 where
  pub fingerprint : String
  pub custody : String

pub record Role : Type 0 where
  pub role : String
  pub threshold : String
  pub members : List Member

pub record Policy : Type 0 where
  pub schema : String
  pub policy_id : String
  pub policy_hash : String
  pub epoch : String
  pub predecessor : Option String
  pub announced_at : String
  pub valid_from : String
  pub valid_until : String
  pub roles : List Role
  pub forbidden : List String
  pub minimum_delay : String
  pub maximum_epoch : String

pub record Context : Type 0 where
  pub observed_at : String
  pub expected_epoch : String
  pub expected_predecessor : Option String

-- `requireValue`, its condition and its code
pub record Check : Type 0 where
  pub holds : Bool
  pub on_failure : PolicyCode

infix 80 ◌or_throw◌
abbrev pub ◌or_throw◌ : Bool → PolicyCode → Check
b or_throw e = record { holds = b; on_failure = e }

-- What the checks throw: the code of the first that does not hold.
unfoldable pub thrown : List Check → Option PolicyCode
thrown [] = none
thrown (c ∷ cs) = if c.holds then thrown cs else some c.on_failure

infixr 60 ◌followed_by◌
unfoldable pub ◌followed_by◌ : List Check → List Check → List Check
cs followed_by ds = cs ++ ds

unfoldable pub number : String → ℕ
unfolding decimal_value
number s = decimal_value 0 s

-- `decimal` and `uint64`
unfoldable pub decimal : String → List Check
unfolding is_whole
decimal s =
    (leb (count s) 78 && is_whole s) or_throw non_canonical_decimal
    ∷ leb (number s) (2 ^ 256 - 1) or_throw decimal_range
    ∷ []

unfoldable pub uint64 : String → List Check
unfolding decimal
uint64 s = decimal s followed_by (leb (number s) (2 ^ 64 - 1) or_throw decimal_range ∷ [])

-- `HASH`
unfoldable pub is_lower_hash : String → Bool
unfolding is_hash lower
is_lower_hash s = is_hash s && str_eq (lower s) s

-- What follows a prefix, if the text has it.
unfoldable pub after_prefix : String → String → Option String
after_prefix String.[] s = some s
after_prefix (String.◌∷◌ c p) String.[] = none
after_prefix (String.◌∷◌ c p) (String.◌∷◌ d s) = if code c == code d then after_prefix p s else none

abbrev is_digest : Option String → Bool
unfolding all_hex lower
is_digest none = false
is_digest (some s) = all_hex s && (count s == 64 && str_eq (lower s) s)

-- `fingerprint`
unfoldable pub fingerprint : String → List Check
unfolding is_digest after_prefix
fingerprint s =
    is_digest (after_prefix "sha256:" s) or_throw invalid_fingerprint
    ∷ not (str_eq s "sha256:0000000000000000000000000000000000000000000000000000000000000000")
      or_throw zero_member
    ∷ []

abbrev is_id_start : ℕ → Bool
is_id_start n = (leb 97 n && leb n 122) || (leb 48 n && leb n 57)

unfoldable pub all_id : String → Bool
all_id String.[] = true
all_id (String.◌∷◌ c s) =
    (is_id_start (code c) || (code c == 46 || (code c == 95 || code c == 45))) && all_id s

-- `POLICY_ID`
unfoldable pub is_policy_id : String → Bool
unfolding all_id
is_policy_id String.[] = false
is_policy_id (String.◌∷◌ c s) = is_id_start (code c) && (all_id s && leb (count s) 63)
