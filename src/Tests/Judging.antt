-- ===== src/Tests/Judging.antt =====
-- tools/portable/canonical.mjs on a price that is compared with a bound, on a range with reversed
-- bounds, and on observations that are references.
use challenge_escrow_protoco.Prelude.{String, ◌≡◌, refl, true, includes, some, List, [], ◌∷◌, Dict}
use challenge_escrow_protoco.Portable.Json.{
  Json, text, object, array, no_items, item, no_fields, field, Complaint, passed, failed, get,
  has_own, has_all, allows, assert_keys, assert, ◌>>=◌, ◌>>◌,
}
use challenge_escrow_protoco.Portable.Patterns.{
  ref_id, after_prefix, referred, id_part, id_rest, is_integer, is_decimal, is_whole, is_fraction,
  before_point, after_point, units, all_digits,
}
use challenge_escrow_protoco.Portable.Validate.{
  integer, decimal, lt, gt, validate_condition, validate_node, operator_of, validate_op,
  validate_parts, validate_value, check_kind, is_valid_value, value_of, is_valid,
}
use challenge_escrow_protoco.Portable.Evaluate.{
  Observation, collect, evaluate_condition, evaluate_node, compare_values, holds, operator_at,
  evaluate_op, evaluate_test, resolve_part, resolve_value, follow_ref, kinded, compare_typed,
  compare_rationals, rational, decimal_value, signed_order, order_of,
}
use challenge_escrow_protoco.Portable.Rules.{Settles}
use challenge_escrow_protoco.Portable.Total.{Whatever}
use challenge_escrow_protoco.Portable.Answers.{AreLiteral, evaluate_condition-Settles}
use challenge_escrow_protoco.Portable.Mirror.{compare_values-mirrored}

abbrev reference : String → Json
reference s = object (field "ref" (text s) no_fields)

abbrev literal : String → String → Json
literal kind s = object (field "kind" (text kind) (field "value" (text s) no_fields))

abbrev comparison : String → Json → Json → Json
comparison op left right =
    object (field "op" (text op) (field "left" left (field "right" right no_fields)))

abbrev document : Json → Json
document root =
    object
      (field "schema" (text "challenge-escrow.condition-language/v1") (field "root" root no_fields))

abbrev priced : Json
priced = document (
    object (
      field "op" (text "all") (
        field "args"
          (array (
            item
              (comparison "gte" (reference "/observations/price/value") (literal "decimal" "10.50"))
              (item
                (object (
                  field "op" (text "not") (
                    field "arg"
                      (comparison "eq" (reference "/observations/price/value")
                        (literal "integer" "12"))
                      no_fields)))
                no_items)))
          no_fields)))

abbrev price : List Observation
price = record { id = "price"; value = literal "integer" "11" } ∷ []

priced_holds : evaluate_condition priced price ≡ passed true
unfolding evaluate_condition ◌>>◌ ◌>>=◌ validate_condition assert_keys has_own has_all allows assert
    includes get validate_node operator_of validate_op validate_parts validate_value check_kind
    is_valid_value value_of is_valid ref_id after_prefix referred id_part id_rest is_integer
    is_decimal is_whole is_fraction before_point after_point units all_digits collect evaluate_node
    operator_at evaluate_op evaluate_test resolve_part resolve_value follow_ref kinded
    compare_values compare_typed compare_rationals rational decimal_value signed_order order_of
    holds
priced_holds = refl

-- Two observations that refer to each other are validated, and their comparison throws.
abbrev chained : List Observation
chained =
    record { id = "a"; value = reference "/observations/b/value" }
    ∷ record { id = "b"; value = reference "/observations/a/value" }
    ∷ []

chained_throws :
    evaluate_condition
      (document
        (comparison "eq" (reference "/observations/a/value") (reference "/observations/b/value")))
      chained
    ≡ failed Complaint.type_error
unfolding evaluate_condition ◌>>◌ ◌>>=◌ validate_condition assert_keys has_own has_all allows assert
    includes get validate_node operator_of validate_op validate_parts validate_value check_kind
    is_valid_value value_of is_valid ref_id after_prefix referred id_part id_rest is_integer
    is_decimal is_whole is_fraction before_point after_point units all_digits collect evaluate_node
    operator_at evaluate_op evaluate_test resolve_part resolve_value follow_ref kinded
    compare_values compare_typed compare_rationals rational decimal_value signed_order order_of
    holds
chained_throws = refl

-- The values of the observations.
abbrev prices : Dict Json
prices = ("price", literal "integer" "11") ∷ []

prices_collected : collect price [] ≡ passed prices
unfolding ◌>>◌ ◌>>=◌ validate_condition assert_keys has_own has_all allows assert includes get
    validate_node operator_of validate_op validate_parts validate_value check_kind is_valid_value
    value_of is_valid ref_id after_prefix referred id_part id_rest is_integer is_decimal is_whole
    is_fraction before_point after_point units all_digits collect evaluate_node operator_at
    evaluate_op evaluate_test resolve_part resolve_value follow_ref kinded compare_values
    compare_typed compare_rationals rational decimal_value signed_order order_of holds
prices_collected = refl

priced_valid : validate_condition priced ≡ passed tt
unfolding ◌>>◌ ◌>>=◌ validate_condition assert_keys has_own has_all allows assert includes get
    validate_node operator_of validate_op validate_parts validate_value check_kind is_valid_value
    value_of is_valid ref_id after_prefix referred id_part id_rest is_integer is_decimal is_whole
    is_fraction before_point after_point units all_digits collect evaluate_node operator_at
    evaluate_op evaluate_test resolve_part resolve_value follow_ref kinded compare_values
    compare_typed compare_rationals rational decimal_value signed_order order_of holds
priced_valid = refl

price_literal : AreLiteral price
unfolding has_own
price_literal = (refl, tt)

evaluate_condition-Settles_example : Settles Whatever (evaluate_condition priced price)
evaluate_condition-Settles_example =
    evaluate_condition-Settles priced price prices priced_valid prices_collected price_literal

compare_values-mirrored_example :
    (compare_values (some (decimal "1.5")) (some (integer "2")) >>= λ o. passed (holds gt o))
    ≡ (compare_values (some (integer "2")) (some (decimal "1.5")) >>= λ o. passed (holds lt o))
compare_values-mirrored_example =
    compare_values-mirrored lt (some (integer "2")) (some (decimal "1.5"))
