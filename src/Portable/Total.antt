-- ===== src/Portable/Total.antt =====
-- tools/portable/canonical.mjs: values that are validated, and their evaluation.
use mathlib.Core.Bool.{false≢true}
use challenge_escrow_protoco.Prelude.{
  String, ◌≡◌, refl, Bool, true, false, Option, none, some, List, [], ◌∷◌, inl, inr, Dict, lookup,
  AllEntries, AllEntries-lookup, Bool-cases, Option-cases, includes,
}
use challenge_escrow_protoco.Portable.Json.{
  Json, text, object, Fields, passed, ◌>>=◌, assert, get, has_own, assert_keys,
}
use challenge_escrow_protoco.Portable.Patterns.{ref_id}
use challenge_escrow_protoco.Portable.Validate.{
  Value, integer, decimal, plain, timestamp, hash, truth, value_of, is_valid_value, known_kinds,
  check_kind, validate_value, Test, part, validate_parts,
}
use challenge_escrow_protoco.Portable.Evaluate.{
  compare_typed, kinded, compare_values, observed, referred_value, follow_ref, resolve_value,
  resolve_part, evaluate_test,
}
use challenge_escrow_protoco.Portable.Rules.{
  not_both, Settles, Settles-bind, Settles-after, bind-passed, then-passed, Settles-passed,
  assert-passed,
}

abbrev pub IsValid : Json → Type 0
IsValid j = validate_value j ≡ passed tt

-- A JSON value that has a kind.
abbrev pub IsKinded : Json → Type 0
IsKinded j = (v : Value) × (kinded j ≡ some v)

abbrev pub is_reference : Json → Bool
is_reference (object fs) = has_own "ref" fs
is_reference _ = false

valid_value : (o : Option Value) → is_valid_value o ≡ true → (v : Value) × (o ≡ some v)
unfolding is_valid_value
valid_value none h = absurd (false≢true h)
valid_value (some v) h = (v, refl)

kind_checked :
    (kind value : Option Json) (fs : Fields)
    → get "kind" fs ≡ kind
    → get "value" fs ≡ value
    → check_kind kind value ≡ passed tt
    → IsKinded (object fs)
unfolding kinded check_kind assert
kind_checked (some (text k)) (some v) fs ek ev h = elim (Bool-cases (includes known_kinds k)) [
  | inl e ↦ rw (ek, ev) (valid_value (value_of k v) (assert-passed _ _ (rw e at h)))
  | inr e ↦ absurd (not_both _ _ (rw e at h))
]
kind_checked _ _ fs ek ev h = absurd (not_both _ _ h)

-- A value that is validated and is no reference has a kind.
pub literal-IsKinded : (j : Json) → IsValid j → is_reference j ≡ false → IsKinded j
unfolding validate_value ◌>>=◌
literal-IsKinded (object fs) h e =
    let (fs', keys, checked) =
      bind-passed (assert_keys ("kind" ∷ "value" ∷ []) (object fs)) _ tt (rw e at h) in
    kind_checked (get "kind" fs) (get "value" fs) fs refl refl checked
literal-IsKinded _ h e = absurd (not_both _ _ h)

-- The values that a reference may find.
abbrev pub AreKinded : Dict Json → Type 0
AreKinded = AllEntries (λ id j. IsKinded j)

observed-Settles :
    (id : String) (values : Dict Json)
    → AreKinded values
    → Settles IsKinded (observed (lookup id values))
observed-Settles id values h = elim (Option-cases (lookup id values)) [
  | inl e ↦ rw e (record { at = tt })
  | inr (j, e) ↦ rw e (Settles-passed j (AllEntries-lookup (λ id j. IsKinded j) id values h e))
]

referred-Settles :
    (o : Option String) (values : Dict Json)
    → AreKinded values
    → Settles IsKinded (referred_value o values)
referred-Settles none values h = record { at = tt }
referred-Settles (some id) values h = observed-Settles id values h

follow_ref-Settles :
    (o : Option Json) (values : Dict Json)
    → AreKinded values
    → Settles IsKinded (follow_ref o values)
unfolding follow_ref
follow_ref-Settles (some (text s)) values h = referred-Settles (ref_id s) values h
follow_ref-Settles _ values h = record { at = tt }

resolve_value-Settles :
    (j : Json) (values : Dict Json)
    → IsValid j
    → AreKinded values
    → Settles IsKinded (resolve_value j values)
unfolding resolve_value validate_value ◌>>=◌
resolve_value-Settles (object fs) values valid h = elim (Bool-cases (has_own "ref" fs)) [
  | inl e ↦ rw e (follow_ref-Settles (get "ref" fs) values h)
  | inr e ↦ rw e (Settles-passed (object fs) (literal-IsKinded (object fs) valid e))
]
resolve_value-Settles _ values valid h = absurd (not_both _ _ valid)

-- A field is there, and its value is valid.
abbrev pub HasValid : String → Fields → Type 0
HasValid k fs = (j : Json) × (part k fs ≡ passed j) × IsValid j

pub parts_valid :
    (k : String) (ks : List String) (fs : Fields)
    → validate_parts (k ∷ ks) fs ≡ passed tt
    → HasValid k fs × (validate_parts ks fs ≡ passed tt)
unfolding validate_parts
parts_valid k ks fs h =
    let (j, at, rest) = bind-passed (part k fs) _ tt h in
    let (u, valid, others) = then-passed (validate_value j) _ tt rest in ((j, at, valid), others)

-- A part that has been resolved has a kind.
abbrev pub IsTyped : Option Value → Type 0
IsTyped o = (v : Value) × (o ≡ some v)

pub resolve_part-Settles :
    (k : String) (fs : Fields) (values : Dict Json)
    → HasValid k fs
    → AreKinded values
    → Settles IsTyped (resolve_part k fs values)
unfolding resolve_part
resolve_part-Settles k fs values (j, at, valid) h = Settles-after (part k fs) j _ at (
    Settles-bind (resolve_value j values) _ (resolve_value-Settles j values valid h)
      λ r kind. Settles-passed (kinded r) kind)

abbrev pub Whatever : {A : Type 0} → A → Type 0
Whatever a = Unit

compare_typed-Settles : (l r : Value) → Settles Whatever (compare_typed l r)
unfolding compare_typed
compare_typed-Settles (integer s) (integer t) = record { at = tt }
compare_typed-Settles (integer s) (decimal t) = record { at = tt }
compare_typed-Settles (decimal s) (integer t) = record { at = tt }
compare_typed-Settles (decimal s) (decimal t) = record { at = tt }
compare_typed-Settles (truth a) (truth b) = record { at = tt }
compare_typed-Settles (timestamp s) (timestamp t) = record { at = tt }
compare_typed-Settles (hash s) (hash t) = record { at = tt }
compare_typed-Settles (plain s) (plain t) = record { at = tt }
compare_typed-Settles _ _ = record { at = tt }

pub compare_values-Settles :
    (l r : Option Value) → IsTyped l → IsTyped r → Settles Whatever (compare_values l r)
unfolding compare_values
compare_values-Settles l r (v, el) (w, er) = rw (el, er) (compare_typed-Settles v w)

pub evaluate_test-Settles :
    (test : Test) (fs : Fields) (values : Dict Json)
    → HasValid "left" fs
    → HasValid "right" fs
    → AreKinded values
    → Settles Whatever (evaluate_test test fs values)
unfolding evaluate_test
evaluate_test-Settles test fs values hl hr h =
    Settles-bind _ _ (resolve_part-Settles "left" fs values hl h) λ l kl.
      Settles-bind _ _ (resolve_part-Settles "right" fs values hr h)
        λ r kr. Settles-bind _ _ (compare_values-Settles l r kl kr) λ o w. Settles-passed _ tt
