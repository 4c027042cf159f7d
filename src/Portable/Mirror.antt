-- ===== src/Portable/Mirror.antt =====
-- tools/portable/canonical.mjs: comparisons read in the other direction.
use Prim.Native.Char.{code}
use challenge_escrow_protoco.Prelude.{
  ℕ, ◌*◌, String, ◌≡◌, refl, ap, Bool, true, false, Option, none, some, arith,
}
use challenge_escrow_protoco.Observer.Hex.{lower}
use challenge_escrow_protoco.Portable.Json.{Checked, passed, failed, ◌>>=◌}
use challenge_escrow_protoco.Portable.Validate.{
  Value, integer, decimal, plain, timestamp, hash, truth, Test, eq, neq, lt, lte, gt, gte,
}
use challenge_escrow_protoco.Portable.Evaluate.{
  Order, below, same, above, order_of, compare_code_points, decimal_value, Rational, rational,
  signed_order, compare_rationals, compare_typed, compare_values, holds,
}

abbrev flip : Order → Order
flip below = above
flip same = same
flip above = below

abbrev flipped : Checked Order → Checked Order
flipped (passed o) = passed (flip o)
flipped (failed e) = failed e

-- The test that the other direction needs.
abbrev pub mirrored : Test → Test
mirrored eq = eq
mirrored neq = neq
mirrored lt = gt
mirrored lte = gte
mirrored gt = lt
mirrored gte = lte

order_of-flip : (a b : ℕ) → order_of b a ≡ flip (order_of a b)
unfolding order_of
order_of-flip a b = ground arith

compare_code_points-flip : (s t : String) → compare_code_points t s ≡ flip (compare_code_points s t)
unfolding compare_code_points
compare_code_points-flip String.[] String.[] = refl
compare_code_points-flip String.[] (String.◌∷◌ d t) = refl
compare_code_points-flip (String.◌∷◌ c s) String.[] = refl
compare_code_points-flip (String.◌∷◌ c s) (String.◌∷◌ d t) =
    ground (arith, compare_code_points-flip s t, order_of-flip (code c) (code d))

signed_order-flip : (m n : Bool) (a b : ℕ) → signed_order n b m a ≡ flip (signed_order m a n b)
unfolding signed_order
signed_order-flip false false a b = order_of-flip a b
signed_order-flip true true a b = order_of-flip b a
signed_order-flip true false a b = ground arith
signed_order-flip false true a b = ground arith

compare_rationals-flip : (l r : Rational) → compare_rationals r l ≡ flip (compare_rationals l r)
unfolding compare_rationals
compare_rationals-flip l r =
    signed_order-flip l.negative r.negative (l.numerator * r.denominator)
      (r.numerator * l.denominator)

compare_typed-flip : (v w : Value) → compare_typed w v ≡ flipped (compare_typed v w)
unfolding compare_typed
compare_typed-flip (integer s) (integer t) =
    ap passed (compare_rationals-flip (rational s) (rational t))
compare_typed-flip (integer s) (decimal t) =
    ap passed (compare_rationals-flip (rational s) (rational t))
compare_typed-flip (decimal s) (integer t) =
    ap passed (compare_rationals-flip (rational s) (rational t))
compare_typed-flip (decimal s) (decimal t) =
    ap passed (compare_rationals-flip (rational s) (rational t))
compare_typed-flip (truth true) (truth true) = refl
compare_typed-flip (truth true) (truth false) = refl
compare_typed-flip (truth false) (truth true) = refl
compare_typed-flip (truth false) (truth false) = refl
compare_typed-flip (timestamp s) (timestamp t) =
    ap passed (order_of-flip (decimal_value 0 s) (decimal_value 0 t))
compare_typed-flip (hash s) (hash t) = ap passed (compare_code_points-flip (lower s) (lower t))
compare_typed-flip (plain s) (plain t) = ap passed (compare_code_points-flip s t)
compare_typed-flip _ _ = refl

compare_values-flip : (l r : Option Value) → compare_values r l ≡ flipped (compare_values l r)
unfolding compare_values
compare_values-flip (some v) (some w) = compare_typed-flip v w
compare_values-flip none none = refl
compare_values-flip none (some w) = refl
compare_values-flip (some v) none = refl

holds-mirrored : (test : Test) (o : Order) → holds (mirrored test) (flip o) ≡ holds test o
unfolding holds
holds-mirrored eq below = refl
holds-mirrored eq same = refl
holds-mirrored eq above = refl
holds-mirrored neq below = refl
holds-mirrored neq same = refl
holds-mirrored neq above = refl
holds-mirrored lt below = refl
holds-mirrored lt same = refl
holds-mirrored lt above = refl
holds-mirrored lte below = refl
holds-mirrored lte same = refl
holds-mirrored lte above = refl
holds-mirrored gt below = refl
holds-mirrored gt same = refl
holds-mirrored gt above = refl
holds-mirrored gte below = refl
holds-mirrored gte same = refl
holds-mirrored gte above = refl

decided :
    (test : Test) (c : Checked Order)
    → (flipped c >>= λ o. passed (holds (mirrored test) o)) ≡ (c >>= λ o. passed (holds test o))
unfolding ◌>>=◌
decided test (passed o) = ap passed (holds-mirrored test o)
decided test (failed e) = refl

-- A comparison of any two values decides the same, or fails in the same way, when it is written in the
-- other direction: "less than" as "greater than", "at most" as "at least", and equality as it is.
pub compare_values-mirrored :
    (test : Test) (l r : Option Value)
    → (compare_values r l >>= λ o. passed (holds (mirrored test) o))
      ≡ (compare_values l r >>= λ o. passed (holds test o))
compare_values-mirrored test l r = rw (compare_values-flip l r) (decided test (compare_values l r))
