-- ===== src/Portable/Evaluate.antt =====
-- tools/portable/canonical.mjs: `evaluateCondition`, `evaluateNode`, `resolveValue`, `compareValues` and
-- `rational`. The recursion of `evaluateNode` is on fuel.
use Prim.Native.Char.{code}
use Prim.Native.String.{count}
use challenge_escrow_protoco.Prelude.{
  ℕ, zero, suc, ◌+◌, ◌-◌, ◌*◌, ◌^◌, ◌==◌, String, Bool, true, false, not, ◌&&◌, bool_eq, Option,
  none, some, List, [], ◌∷◌, Dict, lookup, contains, insert, ltb, if◌then◌else◌,
}
use challenge_escrow_protoco.Observer.Hex.{lower}
use challenge_escrow_protoco.Portable.Json.{
  Json, text, object, boolean, Items, no_items, item, Fields, Complaint, Checked, passed, failed,
  ◌>>=◌, ◌>>◌, assert, get, has_own,
}
use challenge_escrow_protoco.Portable.Patterns.{
  unsigned, is_negative, before_point, after_point, ref_id,
}
use challenge_escrow_protoco.Portable.Validate.{
  Value, integer, decimal, plain, timestamp, hash, truth, value_of, Test, eq, neq, lt, lte, gt, gte,
  Operator, all, any, negation, between, unsupported, compared, operator_of, validate_value,
  validate_condition, part, items_of,
}

-- The sign of a comparison.
pub data Order : Type 0 where
  below same above : Order

unfoldable pub order_of : ℕ → ℕ → Order
order_of a b = if ltb a b then below else if a == b then same else above

-- `compareCodePoints`
unfoldable pub compare_code_points : String → String → Order
compare_code_points String.[] String.[] = same
compare_code_points String.[] (String.◌∷◌ d t) = below
compare_code_points (String.◌∷◌ c s) String.[] = above
compare_code_points (String.◌∷◌ c s) (String.◌∷◌ d t) =
    if code c == code d then compare_code_points s t else order_of (code c) (code d)

-- `BigInt`, on decimal digits, after the digits that were read
unfoldable pub decimal_value : ℕ → String → ℕ
decimal_value n String.[] = n
decimal_value n (String.◌∷◌ c s) = decimal_value (n * 10 + (code c - 48)) s

pub record Rational : Type 0 where
  pub negative : Bool
  pub numerator : ℕ
  pub denominator : ℕ

abbrev fraction_of : Option String → String
fraction_of none = ""
fraction_of (some s) = s

-- `rational`; the numerator is kept with its sign.
unfoldable pub rational : String → Rational
rational s =
    let whole = before_point s in
    let fraction = fraction_of (after_point s) in
    let scale = 10 ^ count fraction in
    record {
      negative = is_negative whole;
      numerator = decimal_value 0 (unsigned whole) * scale + decimal_value 0 fraction;
      denominator = scale;
    }

-- The sign of a difference of two numbers with signs.
unfoldable pub signed_order : Bool → ℕ → Bool → ℕ → Order
signed_order false a false b = order_of a b
signed_order true a true b = order_of b a
signed_order true a false b = if a == 0 && b == 0 then same else below
signed_order false a true b = if a == 0 && b == 0 then same else above

unfoldable pub compare_rationals : Rational → Rational → Order
compare_rationals l r =
    signed_order l.negative (l.numerator * r.denominator) r.negative (r.numerator * l.denominator)

abbrev compare_truths : Bool → Bool → Order
compare_truths l r = if bool_eq l r then same else if l then above else below

-- `compareValues`, of values with a kind
unfoldable pub compare_typed : Value → Value → Checked Order
compare_typed (integer s) (integer t) = passed (compare_rationals (rational s) (rational t))
compare_typed (integer s) (decimal t) = passed (compare_rationals (rational s) (rational t))
compare_typed (decimal s) (integer t) = passed (compare_rationals (rational s) (rational t))
compare_typed (decimal s) (decimal t) = passed (compare_rationals (rational s) (rational t))
compare_typed (truth a) (truth b) = passed (compare_truths a b)
compare_typed (timestamp s) (timestamp t) =
    passed (order_of (decimal_value 0 s) (decimal_value 0 t))
compare_typed (hash s) (hash t) = passed (compare_code_points (lower s) (lower t))
compare_typed (plain s) (plain t) = passed (compare_code_points s t)
compare_typed _ _ = failed Complaint.incompatible_kinds

-- `left.kind` and `left.value`; a reference has none.
abbrev kind_with_value : Option Json → Option Json → Option Value
kind_with_value (some (text kind)) (some v) = value_of kind v
kind_with_value _ _ = none

unfoldable pub kinded : Json → Option Value
kinded (object fs) = kind_with_value (get "kind" fs) (get "value" fs)
kinded _ = none

-- `compareValues`. Where neither value has a kind, the kinds agree and the texts that are missing are
-- iterated over, which throws.
unfoldable pub compare_values : Option Value → Option Value → Checked Order
unfolding compare_typed
compare_values (some l) (some r) = compare_typed l r
compare_values none none = failed Complaint.type_error
compare_values _ _ = failed Complaint.incompatible_kinds

-- `observations.get(match[1])`
abbrev pub observed : Option Json → Checked Json
observed none = failed Complaint.missing_observation
observed (some j) = passed j

abbrev pub referred_value : Option String → Dict Json → Checked Json
referred_value none values = failed Complaint.missing_observation
referred_value (some id) values = observed (lookup id values)

unfoldable pub follow_ref : Option Json → Dict Json → Checked Json
unfolding ref_id
follow_ref (some (text s)) values = referred_value (ref_id s) values
follow_ref _ values = failed Complaint.missing_observation

abbrev pub object_of : Json → Checked Fields
object_of (object fs) = passed fs
object_of _ = failed Complaint.type_error

-- `resolveValue`
unfoldable pub resolve_value : Json → Dict Json → Checked Json
unfolding follow_ref
resolve_value json values = do
  fs ← object_of json
  if has_own "ref" fs then follow_ref (get "ref" fs) values else passed json

abbrev pub is_at_most : Order → Bool
is_at_most above = false
is_at_most _ = true

abbrev pub is_at_least : Order → Bool
is_at_least below = false
is_at_least _ = true

-- How a comparison decides a test.
unfoldable pub holds : Test → Order → Bool
holds eq same = true
holds neq below = true
holds neq above = true
holds lt below = true
holds lte below = true
holds lte same = true
holds gt above = true
holds gte above = true
holds gte same = true
holds _ _ = false

-- The value of a field of a node, resolved.
unfoldable pub resolve_part : String → Fields → Dict Json → Checked (Option Value)
unfolding kinded
resolve_part k fs values = do j ← part k fs; v ← resolve_value j values; passed (kinded v)

unfoldable pub within : Bool → Order → Order → Bool
within true lower upper = is_at_least lower && is_at_most upper
within false lower upper = not (is_at_most lower) && not (is_at_least upper)

abbrev pub flag_of : Json → Checked Bool
flag_of (boolean b) = passed b
flag_of _ = failed Complaint.type_error

-- The branch of `between`.
unfoldable pub evaluate_between : Fields → Dict Json → Checked Bool
evaluate_between fs values = do
  actual ← resolve_part "value" fs values
  lower ← resolve_part "lower" fs values
  upper ← resolve_part "upper" fs values
  bounds ← compare_values lower upper
  assert (is_at_most bounds) Complaint.bounds_reversed
  low ← compare_values actual lower
  high ← compare_values actual upper
  inclusive ← part "inclusive" fs
  flag ← flag_of inclusive
  passed (within flag low high)

-- The branch of the comparisons.
unfoldable pub evaluate_test : Test → Fields → Dict Json → Checked Bool
evaluate_test test fs values = do
  left ← resolve_part "left" fs values
  right ← resolve_part "right" fs values
  order ← compare_values left right
  passed (holds test order)

-- `every` and `some`, which stop at the first child that decides.
abbrev pub evaluate_every : (Json → Checked Bool) → Items → Checked Bool
evaluate_every child no_items = passed true
evaluate_every child (item j js) =
    let rest = evaluate_every child js in child j >>= λ b. if b then rest else passed false

abbrev pub evaluate_some : (Json → Checked Bool) → Items → Checked Bool
evaluate_some child no_items = passed false
evaluate_some child (item j js) =
    let rest = evaluate_some child js in child j >>= λ b. if b then passed true else rest

-- The branches of `evaluateNode`, where the evaluation of a child is given.
unfoldable pub evaluate_op : (Json → Checked Bool) → Operator → Fields → Dict Json → Checked Bool
unfolding evaluate_test evaluate_between
evaluate_op child all fs values = do
  args ← part "args" fs
  js ← items_of args
  evaluate_every child js
evaluate_op child any fs values = do
  args ← part "args" fs
  js ← items_of args
  evaluate_some child js
evaluate_op child negation fs values = do arg ← part "arg" fs; b ← child arg; passed (not b)
evaluate_op child (compared test) fs values = evaluate_test test fs values
evaluate_op child between fs values = evaluate_between fs values
evaluate_op child unsupported fs values = failed Complaint.op_unknown

unfoldable pub operator_at : Option Json → Operator
unfolding operator_of
operator_at (some (text s)) = operator_of s
operator_at _ = unsupported

-- `evaluateNode`
unfoldable pub evaluate_node : ℕ → Json → Dict Json → Checked Bool
unfolding evaluate_op operator_at
evaluate_node zero node values = failed Complaint.exhausted
evaluate_node (suc fuel) node values = do
  fs ← object_of node
  evaluate_op (λ j. evaluate_node fuel j values) (operator_at (get "op" fs)) fs values

pub record Observation : Type 0 where
  pub id : String
  pub value : Json

-- The loop over the observations.
unfoldable pub collect : List Observation → Dict Json → Checked (Dict Json)
collect [] values = passed values
collect (o ∷ os) values = do
  assert (not (contains o.id values)) Complaint.id_duplicated
  validate_value o.value
  collect os (insert o.id o.value values)

-- `evaluateCondition`
unfoldable pub evaluate_condition : Json → List Observation → Checked Bool
evaluate_condition document observations = do
  validate_condition document
  values ← collect observations []
  fs ← object_of document
  root ← part "root" fs
  evaluate_node 33 root values
