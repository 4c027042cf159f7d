-- ===== src/Portable/Json.antt =====
-- tools/portable/canonical.mjs: JSON values as `JSON.parse` returns them, and the tests on the keys of
-- an object. A number is one constructor, as the program refuses every number. The keys of an object
-- are distinct.
use challenge_escrow_protoco.Prelude.{
  ℕ, ◌+◌, String, Bool, true, false, Option, none, some, List, [], ◌∷◌, str_eq, includes,
  if◌then◌else◌,
}

mutual
  pub data Json : Type 0 where
    null number : Json
    boolean : Bool → Json
    text : String → Json
    array : Items → Json
    object : Fields → Json

  pub data Items : Type 0 where
    no_items : Items
    item : Json → Items → Items

  pub data Fields : Type 0 where
    no_fields : Fields
    field : String → Json → Fields → Fields

-- The messages of `assert` and `fail`, without their labels; `type_error` is what JavaScript throws at
-- a read of a value that has not been validated, and `exhausted` that the fuel of the model is spent.
pub data Complaint : Type 0 where
  not_an_object key_required key_unknown too_deep op_required args_length op_unknown : Complaint
  inclusive_not_boolean bad_reference bad_value kind_unknown schema_drifted : Complaint
  observations_not_array id_required id_duplicated bounds_reversed missing_observation : Complaint
  incompatible_kinds type_error exhausted : Complaint

pub data Checked {ℓ} (A : Type ℓ) : Type ℓ where
  passed : A → Checked A
  failed : Complaint → Checked A

infixl 5 ◌>>=◌ ◌>>◌
unfoldable pub ◌>>=◌ {ℓ κ} : {A : Type ℓ} {B : Type κ} → Checked A → (A → Checked B) → Checked B
passed a >>= f = f a
failed e >>= f = failed e

unfoldable pub ◌>>◌ {ℓ κ} : {A : Type ℓ} {B : Type κ} → Checked A → Checked B → Checked B
m >> n = m >>= λ _. n

unfoldable pub assert : Bool → Complaint → Checked (Unit {0})
assert true e = passed tt
assert false e = failed e

-- `value[key]`
unfoldable pub get : String → Fields → Option Json
get k no_fields = none
get k (field j v fs) = if str_eq j k then some v else get k fs

-- `Object.hasOwn(value, key)`
unfoldable pub has_own : String → Fields → Bool
has_own k no_fields = false
has_own k (field j v fs) = if str_eq j k then true else has_own k fs

unfoldable pub has_all : List String → Fields → Bool
unfolding has_own
has_all [] fs = true
has_all (k ∷ ks) fs = if has_own k fs then has_all ks fs else false

-- `Object.keys(value).every((key) => allowed.has(key))`
unfoldable pub allows : List String → Fields → Bool
allows ks no_fields = true
allows ks (field j v fs) = if includes ks j then allows ks fs else false

-- The fields of an object that is no array.
abbrev pub fields_of : Json → Checked Fields
fields_of (object fs) = passed fs
fields_of _ = failed Complaint.not_an_object

-- `assertKeys`, where no key is optional
unfoldable pub assert_keys : List String → Json → Checked Fields
unfolding has_all allows
assert_keys required json = do
  fs ← fields_of json
  assert (has_all required fs) Complaint.key_required
  assert (allows required fs) Complaint.key_unknown
  passed fs

abbrev pub size_of : Items → ℕ
size_of no_items = 0
size_of (item j js) = 1 + size_of js
