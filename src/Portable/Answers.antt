-- ===== src/Portable/Answers.antt =====
-- tools/portable/canonical.mjs: a condition that is validated can be evaluated.
use mathlib.Core.Bool.{false≢true}
use challenge_escrow_protoco.Prelude.{
  ℕ, zero, suc, String, ◌≡◌, refl, subst, ◌∙◌, Bool, true, false, not, Option, some, List, [], ◌∷◌,
  Dict, AllEntries-insert, if◌then◌else◌,
}
use challenge_escrow_protoco.Portable.Json.{
  Json, boolean, text, object, Items, no_items, item, Fields, Complaint, Checked, passed, ◌>>=◌,
  ◌>>◌, assert, get, fields_of, assert_keys,
}
use challenge_escrow_protoco.Portable.Validate.{
  validate_value, Operator, all, any, negation, between, unsupported, compared, op_of, part,
  items_of, is_boolean, validate_parts, args_of, validate_items, validate_op, validate_node,
  validate_condition,
}
use challenge_escrow_protoco.Portable.Evaluate.{
  object_of, flag_of, is_at_most, evaluate_between, evaluate_every, evaluate_some, evaluate_op,
  operator_at, evaluate_node, Observation, collect, evaluate_condition,
}
use challenge_escrow_protoco.Portable.Rules.{
  not_both, Settles, Settles-bind, Settles-after, bind-passed, then-passed, Settles-passed,
  assert-passed, Settles-assert,
}
use challenge_escrow_protoco.Portable.Total.{
  IsKinded, is_reference, AreKinded, literal-IsKinded, HasValid, parts_valid, resolve_part-Settles,
  Whatever, compare_values-Settles, evaluate_test-Settles,
}

flag_passed : (j : Json) → is_boolean j ≡ true → (b : Bool) × (flag_of j ≡ passed b)
flag_passed (boolean b) h = (b, refl)
flag_passed _ h = absurd (false≢true h)

-- The flag of a node is there, and is a Boolean.
abbrev HasFlag : Fields → Type 0
HasFlag fs = (j : Json) × (part "inclusive" fs ≡ passed j) × (is_boolean j ≡ true)

evaluate_between-Settles :
    (fs : Fields) (values : Dict Json)
    → HasValid "value" fs
    → HasValid "lower" fs
    → HasValid "upper" fs
    → HasFlag fs
    → AreKinded values
    → Settles Whatever (evaluate_between fs values)
unfolding evaluate_between
evaluate_between-Settles fs values hv hl hu (j, at, isb) h =
    let (b, flag) = flag_passed j isb in
    Settles-bind _ _ (resolve_part-Settles "value" fs values hv h) λ v kv.
      Settles-bind _ _ (resolve_part-Settles "lower" fs values hl h) λ l kl.
        Settles-bind _ _ (resolve_part-Settles "upper" fs values hu h) λ u ku.
          Settles-bind _ _ (compare_values-Settles l u kl ku) λ o w.
            Settles-assert (is_at_most o) Complaint.bounds_reversed _ tt (
              Settles-bind _ _ (compare_values-Settles v l kv kl) λ low w.
                Settles-bind _ _ (compare_values-Settles v u kv ku) λ high w.
                  Settles-after (part "inclusive" fs) j _ at
                    (Settles-after (flag_of j) b _ flag (Settles-passed _ tt)))

-- After a child, by its answer.
by_answer :
    {x y : Checked Bool} (b : Bool)
    → Settles Whatever x
    → Settles Whatever y
    → Settles Whatever (if b then x else y)
by_answer true hx hy = hx
by_answer false hx hy = hy

module _ (validate : Json → Checked (Unit {0})) (evaluate : Json → Checked Bool)
    (total : (j : Json) → validate j ≡ passed tt → Settles Whatever (evaluate j)) where
  every-Settles :
      (js : Items)
      → validate_items validate js ≡ passed tt
      → Settles Whatever (evaluate_every evaluate js)
  every-Settles no_items h = Settles-passed true tt
  every-Settles (item j js) h =
      let (u, first, others) = then-passed (validate j) (validate_items validate js) tt h in
      Settles-bind (evaluate j) _ (total j first)
        λ b w. by_answer b (every-Settles js others) (Settles-passed false tt)

  some-Settles :
      (js : Items)
      → validate_items validate js ≡ passed tt
      → Settles Whatever (evaluate_some evaluate js)
  some-Settles no_items h = Settles-passed false tt
  some-Settles (item j js) h =
      let (u, first, others) = then-passed (validate j) (validate_items validate js) tt h in
      Settles-bind (evaluate j) _ (total j first)
        λ b w. by_answer b (Settles-passed true tt) (some-Settles js others)

  -- The children of a node that is validated.
  AreChildren : Fields → Type 0
  AreChildren fs =
      (args : Json) × (js : Items) × (part "args" fs ≡ passed args)
      × (items_of args ≡ passed js)
      × (validate_items validate js ≡ passed tt)

  children : (fs : Fields) → (args_of fs >>= validate_items validate) ≡ passed tt → AreChildren fs
  unfolding AreChildren
  children fs h =
      let (js, found, valid) = bind-passed (args_of fs) _ tt h in
      let (args, at, rest) = bind-passed (part "args" fs) _ js found in
      let (ks, items, counted) = bind-passed (items_of args) _ js rest in
      let (u, few, last) = then-passed (assert _ _) (passed ks) js counted in
      (args, js, at, items ∙ last, valid)

  evaluate_op-Settles :
      (op : Operator) (node : Json) (fs : Fields) (values : Dict Json)
      → validate_op validate op node fs ≡ passed tt
      → AreKinded values
      → Settles Whatever (evaluate_op evaluate op fs values)
  unfolding validate_op evaluate_op AreChildren
  evaluate_op-Settles all node fs values h k =
      let (u, keys, rest) = then-passed (assert_keys _ node) _ tt h in
      let (args, js, at, items, valid) = children fs rest in
      Settles-after (part "args" fs) args _ at
        (Settles-after (items_of args) js _ items (every-Settles js valid))
  evaluate_op-Settles any node fs values h k =
      let (u, keys, rest) = then-passed (assert_keys _ node) _ tt h in
      let (args, js, at, items, valid) = children fs rest in
      Settles-after (part "args" fs) args _ at
        (Settles-after (items_of args) js _ items (some-Settles js valid))
  evaluate_op-Settles negation node fs values h k =
      let (u, keys, rest) = then-passed (assert_keys _ node) _ tt h in
      let (arg, at, valid) = bind-passed (part "arg" fs) validate tt rest in
      Settles-after (part "arg" fs) arg _ at
        (Settles-bind (evaluate arg) _ (total arg valid) λ b w. Settles-passed (not b) tt)
  evaluate_op-Settles (compared test) node fs values h k =
      let (u, keys, rest) = then-passed (assert_keys _ node) _ tt h in
      let (left, others) = parts_valid "left" ("right" ∷ []) fs rest in
      let (right, end) = parts_valid "right" [] fs others in
      evaluate_test-Settles test fs values left right k
  evaluate_op-Settles between node fs values h k =
      let (u, keys, rest) = then-passed (assert_keys _ node) _ tt h in
      let (u, parts, flagged) =
        then-passed (validate_parts ("value" ∷ "lower" ∷ "upper" ∷ []) fs) _ tt rest in
      let (v, others) = parts_valid "value" ("lower" ∷ "upper" ∷ []) fs parts in
      let (l, more) = parts_valid "lower" ("upper" ∷ []) fs others in
      let (r, end) = parts_valid "upper" [] fs more in
      let (flag, at, isb) = bind-passed (part "inclusive" fs) _ tt flagged in
      evaluate_between-Settles fs values v l r (flag, at, assert-passed _ _ isb) k
  evaluate_op-Settles unsupported node fs values h k = absurd (not_both _ _ h)

operator_read : (o : Option Json) (op : Operator) → op_of o ≡ passed op → operator_at o ≡ op
unfolding operator_at
operator_read (some (text s)) op h = cc
operator_read _ op h = absurd (not_both _ _ h)

-- Levels on which a node is validated are fuel enough for its evaluation.
evaluate_node-Settles :
    (levels : ℕ) (node : Json) (values : Dict Json)
    → validate_node levels node ≡ passed tt
    → AreKinded values
    → Settles Whatever (evaluate_node levels node values)
unfolding validate_node evaluate_node ◌>>=◌
evaluate_node-Settles zero node values h k = absurd (not_both _ _ h)
evaluate_node-Settles (suc levels) (object fs) values h k =
    let (op, read, valid) = bind-passed (op_of (get "op" fs)) _ tt h in
    rw (operator_read (get "op" fs) op read) (
      evaluate_op-Settles (validate_node levels) (λ j. evaluate_node levels j values)
        (λ j v. evaluate_node-Settles levels j values v k) op (object fs) fs values valid k)
evaluate_node-Settles (suc levels) _ values h k = absurd (not_both _ _ h)

passed_eq : {A : Type 0} (a b : A) → passed a ≡ passed b → a ≡ b
passed_eq a b h = cc

object_read : (j : Json) (fs : Fields) → fields_of j ≡ passed fs → object_of j ≡ passed fs
object_read (object gs) fs h = h
object_read _ fs h = absurd (not_both _ _ h)

keys_object :
    (ks : List String) (j : Json) (fs : Fields)
    → assert_keys ks j ≡ passed fs
    → object_of j ≡ passed fs
unfolding assert_keys
keys_object ks j fs h =
    let (gs, read, rest) = bind-passed (fields_of j) _ fs h in
    let (u, required, more) = then-passed (assert _ _) _ fs rest in
    let (v, allowed, last) = then-passed (assert _ _) (passed gs) fs more in
    object_read j fs (read ∙ last)

-- The observations are not references.
abbrev pub AreLiteral : List Observation → Type 0
AreLiteral [] = Unit
AreLiteral (o ∷ os) = (is_reference o.value ≡ false) × AreLiteral os

collect-AreKinded :
    (os : List Observation) (values found : Dict Json)
    → collect os values ≡ passed found
    → AreLiteral os
    → AreKinded values
    → AreKinded found
unfolding collect
collect-AreKinded [] values found h l k = subst AreKinded (passed_eq values found h) k
collect-AreKinded (o ∷ os) values found h l k =
    let (u, new, rest) = then-passed (assert _ _) _ found h in
    let (w, valid, others) = then-passed (validate_value o.value) _ found rest in
    collect-AreKinded os _ found others l.1 (
      AllEntries-insert (λ id j. IsKinded j) o.id o.value values
        (literal-IsKinded o.value valid l.0) k)

after_checks :
    {m : Checked Bool} (u : Checked (Unit {0}))
    → u ≡ passed tt
    → Settles Whatever m
    → Settles Whatever (u >> m)
unfolding ◌>>◌
after_checks {m} u e h = Settles-after u tt (λ _. m) e h

-- A condition that is validated, on observations that are validated and are no references, is decided:
-- its evaluation gives a Boolean, or it fails because an observation is missing, two kinds cannot be
-- compared or the bounds of a range are reversed. It never runs out of levels, and it never reads a
-- field that is not there.
pub evaluate_condition-Settles :
    (document : Json) (observations : List Observation) (values : Dict Json)
    → validate_condition document ≡ passed tt
    → collect observations [] ≡ passed values
    → AreLiteral observations
    → Settles Whatever (evaluate_condition document observations)
unfolding evaluate_condition validate_condition
evaluate_condition-Settles document observations values h c l =
    let (fs, keys, rest) = bind-passed (assert_keys ("schema" ∷ "root" ∷ []) document) _ tt h in
    let (u, language, more) = then-passed (assert _ _) _ tt rest in
    let (root, at, valid) = bind-passed (part "root" fs) (validate_node 33) tt more in
    let kinds = collect-AreKinded observations [] values c l tt in
    after_checks (validate_condition document) h (
      Settles-after (collect observations []) values _ c (
        Settles-after (object_of document) fs _ (keys_object _ document fs keys) (
          Settles-after (part "root" fs) root _ at
            (evaluate_node-Settles 33 root values valid kinds))))
