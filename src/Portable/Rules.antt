-- ===== src/Portable/Rules.antt =====
-- tools/portable/canonical.mjs: the rules of computations that may fail, and what a validation that
-- passes says.
use challenge_escrow_protoco.Prelude.{◌≡◌, refl, subst, Bool, true, false}
use challenge_escrow_protoco.Portable.Json.{Complaint, Checked, passed, failed, ◌>>=◌, ◌>>◌, assert}

-- The complaints that the data of a condition and of its observations may bring up in an evaluation.
abbrev pub IsOfData : Complaint → Type 0
IsOfData Complaint.missing_observation = Unit
IsOfData Complaint.incompatible_kinds = Unit
IsOfData Complaint.bounds_reversed = Unit
IsOfData _ = ⊥

abbrev pub Ends : {A : Type 0} → (A → Type 0) → Checked A → Type 0
Ends P (passed a) = P a
Ends P (failed e) = IsOfData e

-- A computation passes with what satisfies `P`, or fails by its data.
pub record Settles {A : Type 0} (P : A → Type 0) (m : Checked A) : Type 0 where
  pub at : Ends P m

module _ {A B : Type 0} where
  pub Settles-bind :
      {P : A → Type 0} {Q : B → Type 0} (m : Checked A) (f : A → Checked B)
      → Settles P m
      → ((a : A) → P a → Settles Q (f a))
      → Settles Q (m >>= f)
  unfolding ◌>>=◌
  Settles-bind (passed a) f h k = k a h.at
  Settles-bind (failed e) f h k = record { at = h.at }

  -- After a computation that is known to pass.
  pub Settles-after :
      {Q : B → Type 0} (m : Checked A) (a : A) (f : A → Checked B)
      → m ≡ passed a
      → Settles Q (f a)
      → Settles Q (m >>= f)
  unfolding ◌>>=◌
  Settles-after m a f e h = rw e h

  -- A sequence that passes, passes in both parts.
  pub bind-passed :
      (m : Checked A) (f : A → Checked B) (b : B)
      → (m >>= f) ≡ passed b
      → (a : A) × (m ≡ passed a) × (f a ≡ passed b)
  unfolding ◌>>=◌
  bind-passed (passed a) f b h = (a, refl, h)
  bind-passed (failed e) f b h = cc

  pub then-passed :
      (m : Checked A) (n : Checked B) (b : B)
      → (m >> n) ≡ passed b
      → (a : A) × (m ≡ passed a) × (n ≡ passed b)
  unfolding ◌>>◌
  then-passed m n b h = bind-passed m (λ _. n) b h

abbrev IsFailed : {A : Type 0} → Checked A → Type 0
IsFailed (failed e) = Unit
IsFailed (passed a) = ⊥

pub not_both : {A : Type 0} (e : Complaint) (a : A) → ¬ (failed e ≡ passed a)
not_both e a h = subst IsFailed h tt

pub Settles-passed : {A : Type 0} {P : A → Type 0} (a : A) → P a → Settles P (passed a)
Settles-passed a p = record { at = p }

pub assert-passed : (b : Bool) (e : Complaint) → assert b e ≡ passed tt → b ≡ true
unfolding assert
assert-passed true e h = refl
assert-passed false e h = cc

-- After an assertion whose complaint is of data.
pub Settles-assert :
    {B : Type 0} {Q : B → Type 0} (b : Bool) (e : Complaint) (n : Checked B)
    → IsOfData e
    → Settles Q n
    → Settles Q (assert b e >> n)
unfolding assert ◌>>=◌ ◌>>◌
Settles-assert true e n d h = h
Settles-assert false e n d h = record { at = d }
