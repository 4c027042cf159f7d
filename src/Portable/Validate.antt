-- ===== src/Portable/Validate.antt =====
-- tools/portable/canonical.mjs: `validateCondition`, `validateNode` and `validateValue`. The recursion is
-- on the levels that the bound on the depth leaves.
use challenge_escrow_protoco.Prelude.{
  ℕ, zero, suc, String, Bool, true, false, ◌&&◌, Option, none, some, List, [], ◌∷◌, is_null, not,
  includes, str_eq, leb, if◌then◌else◌,
}
use challenge_escrow_protoco.Observer.Hex.{is_hash}
use challenge_escrow_protoco.Portable.Json.{
  Json, boolean, text, array, Items, no_items, item, Fields, Complaint, Checked, passed, failed,
  ◌>>=◌, ◌>>◌, assert, get, has_own, fields_of, assert_keys, size_of,
}
use challenge_escrow_protoco.Portable.Patterns.{is_integer, is_decimal, is_timestamp, units, ref_id}

-- A value with its kind.
pub data Value : Type 0 where
  integer decimal plain timestamp hash : String → Value
  truth : Bool → Value

-- What a kind and a value stand for; `none` where the value is not of the type of the kind.
unfoldable pub value_of : String → Json → Option Value
value_of kind (text s) =
    if str_eq kind "integer"
    then some (integer s)
    else if str_eq kind "decimal"
    then some (decimal s)
    else if str_eq kind "text"
    then some (plain s)
    else if str_eq kind "timestamp"
    then some (timestamp s)
    else if str_eq kind "hash"
    then some (hash s)
    else none
value_of kind (boolean b) = if str_eq kind "boolean" then some (truth b) else none
value_of kind _ = none

-- The tests on a value of each kind.
unfoldable pub is_valid : Value → Bool
is_valid (integer s) = leb (units s) 78 && is_integer s
is_valid (decimal s) = leb (units s) 128 && is_decimal s
is_valid (plain s) = leb (units s) 4096
is_valid (timestamp s) = is_timestamp s
is_valid (hash s) = is_hash s
is_valid (truth b) = true

unfoldable pub is_valid_value : Option Value → Bool
unfolding is_valid
is_valid_value none = false
is_valid_value (some v) = is_valid v

abbrev pub known_kinds : List String
known_kinds = "integer" ∷ "decimal" ∷ "text" ∷ "boolean" ∷ "timestamp" ∷ "hash" ∷ []

unfoldable pub check_kind : Option Json → Option Json → Checked (Unit {0})
unfolding is_valid_value value_of
check_kind (some (text kind)) (some v) =
    if includes known_kinds kind
    then assert (is_valid_value (value_of kind v)) Complaint.bad_value
    else failed Complaint.kind_unknown
check_kind _ _ = failed Complaint.bad_value

abbrev pub check_ref : Option Json → Checked (Unit {0})
check_ref (some (text s)) = assert (not (is_null (ref_id s))) Complaint.bad_reference
check_ref _ = failed Complaint.bad_reference

-- `validateValue`
unfoldable pub validate_value : Json → Checked (Unit {0})
validate_value json = do
  fs ← fields_of json
  if has_own "ref" fs
      then (assert_keys ("ref" ∷ []) json >>= λ _. check_ref (get "ref" fs))
      else (assert_keys ("kind" ∷ "value" ∷ []) json >>= λ _.
          check_kind (get "kind" fs) (get "value" fs))

-- The six comparisons, and the operators of a node.
pub data Test : Type 0 where
  eq neq lt lte gt gte : Test

pub data Operator : Type 0 where
  all any negation between unsupported : Operator
  compared : Test → Operator

unfoldable pub operator_of : String → Operator
operator_of s =
    if str_eq s "all"
    then all
    else if str_eq s "any"
    then any
    else if str_eq s "not"
    then negation
    else if str_eq s "between"
    then between
    else if str_eq s "eq"
    then compared eq
    else if str_eq s "neq"
    then compared neq
    else if str_eq s "lt"
    then compared lt
    else if str_eq s "lte"
    then compared lte
    else if str_eq s "gt"
    then compared gt
    else if str_eq s "gte"
    then compared gte
    else unsupported

abbrev pub op_of : Option Json → Checked Operator
op_of (some (text s)) = passed (operator_of s)
op_of _ = failed Complaint.op_required

-- A field that must be there: the keys have been asserted.
abbrev pub part : String → Fields → Checked Json
part k fs = present (get k fs)
  where
    present : Option Json → Checked Json
    present none = failed Complaint.key_required
    present (some j) = passed j

abbrev pub items_of : Json → Checked Items
items_of (array js) = passed js
items_of _ = failed Complaint.args_length

abbrev pub is_boolean : Json → Bool
is_boolean (boolean b) = true
is_boolean _ = false

unfoldable pub validate_parts : List String → Fields → Checked (Unit {0})
validate_parts [] fs = passed tt
validate_parts (k ∷ ks) fs = do j ← part k fs; validate_value j; validate_parts ks fs

-- The children of `all` and `any`, from 1 to 32.
abbrev pub args_of : Fields → Checked Items
args_of fs = do
  args ← part "args" fs
  js ← items_of args
  assert (leb 1 (size_of js) && leb (size_of js) 32) Complaint.args_length
  passed js

abbrev pub validate_items : (Json → Checked (Unit {0})) → Items → Checked (Unit {0})
validate_items child no_items = passed tt
validate_items child (item j js) = child j >> validate_items child js

-- The branches of `validateNode`, where the validation of a child is given.
unfoldable pub validate_op :
    (Json → Checked (Unit {0})) → Operator → Json → Fields → Checked (Unit {0})
unfolding validate_parts
validate_op child all node fs = do
  assert_keys ("op" ∷ "args" ∷ []) node
  js ← args_of fs
  validate_items child js
validate_op child any node fs = do
  assert_keys ("op" ∷ "args" ∷ []) node
  js ← args_of fs
  validate_items child js
validate_op child negation node fs = do
  assert_keys ("op" ∷ "arg" ∷ []) node
  arg ← part "arg" fs
  child arg
validate_op child (compared test) node fs = do
  assert_keys ("op" ∷ "left" ∷ "right" ∷ []) node
  validate_parts ("left" ∷ "right" ∷ []) fs
validate_op child between node fs = do
  assert_keys ("op" ∷ "value" ∷ "lower" ∷ "upper" ∷ "inclusive" ∷ []) node
  validate_parts ("value" ∷ "lower" ∷ "upper" ∷ []) fs
  inclusive ← part "inclusive" fs
  assert (is_boolean inclusive) Complaint.inclusive_not_boolean
validate_op child unsupported node fs = failed Complaint.op_unknown

-- `validateNode`, with the levels that are left: 33 at the root.
unfoldable pub validate_node : ℕ → Json → Checked (Unit {0})
unfolding validate_op operator_of
validate_node zero node = failed Complaint.too_deep
validate_node (suc levels) node = do
  fs ← fields_of node
  op ← op_of (get "op" fs)
  validate_op (validate_node levels) op node fs

abbrev pub is_language : Option Json → Bool
is_language (some (text s)) = str_eq s "challenge-escrow.condition-language/v1"
is_language _ = false

-- `validateCondition`
unfoldable pub validate_condition : Json → Checked (Unit {0})
validate_condition document = do
  fs ← assert_keys ("schema" ∷ "root" ∷ []) document
  assert (is_language (get "schema" fs)) Complaint.schema_drifted
  root ← part "root" fs
  validate_node 33 root
