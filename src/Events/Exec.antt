-- ===== src/Events/Exec.antt =====
-- tools/client/events.ts: a value, or what `fail` throws, and what holds of the value if there is one.
use challenge_escrow_protoco.Prelude.{Bool, true, false, ◌≡◌, refl, if◌then◌else◌}
use challenge_escrow_protoco.Events.Types.{Defect}

pub data Decoded {ℓ} (A : Type ℓ) : Type ℓ where
  value : A → Decoded A
  defective : Defect → Decoded A

infixl 5 ◌>>=◌ ◌>>◌
unfoldable pub ◌>>=◌ : {A B : Type 0} → Decoded A → (A → Decoded B) → Decoded B
value a >>= f = f a
defective e >>= f = defective e

unfoldable pub ◌>>◌ : {A B : Type 0} → Decoded A → Decoded B → Decoded B
m >> n = m >>= λ _. n

-- `assert`
unfoldable pub assert : Bool → Defect → Decoded (Unit {0})
assert b e = if b then value tt else defective e

-- `P` holds of the value, if there is one.
abbrev pub Holds {ℓ} : {A : Type 0} → (A → Type ℓ) → Decoded A → Type ℓ
Holds P (value a) = P a
Holds P (defective e) = Unit

pub record Gives {ℓ} {A : Type 0} (P : A → Type ℓ) (m : Decoded A) : Type ℓ where
  pub at : Holds P m

module _ {A B : Type 0} where
  pub Gives-bind {ℓ κ} :
      {P : A → Type κ} {Q : B → Type ℓ} (m : Decoded A) (f : A → Decoded B)
      → Gives P m
      → ((a : A) → P a → Gives Q (f a))
      → Gives Q (m >>= f)
  unfolding ◌>>=◌
  Gives-bind (value a) f h k = k a h.at
  Gives-bind (defective e) f h k = record { at = tt }

  -- After a computation of which nothing is known.
  pub Gives-after {ℓ} :
      {Q : B → Type ℓ} (m : Decoded A) (f : A → Decoded B)
      → ((a : A) → Gives Q (f a))
      → Gives Q (m >>= f)
  unfolding ◌>>=◌
  Gives-after (value a) f k = k a
  Gives-after (defective e) f k = record { at = tt }

  pub Gives-then {ℓ} :
      {Q : B → Type ℓ} (m : Decoded A) (n : Decoded B) → Gives Q n → Gives Q (m >> n)
  unfolding ◌>>◌
  Gives-then m n k = Gives-after m (λ _. n) (λ _. k)

-- After an assertion, what it asserts.
pub Gives-assert {ℓ} :
    {B : Type 0} {Q : B → Type ℓ} (b : Bool) (e : Defect) (n : Decoded B)
    → (b ≡ true → Gives Q n)
    → Gives Q (assert b e >> n)
unfolding assert ◌>>=◌ ◌>>◌
Gives-assert true e n k = k refl
Gives-assert false e n k = record { at = tt }

-- Where an assertion is all, what it asserts.
pub Gives-holds {ℓ} :
    {P : Unit {0} → Type ℓ} (b : Bool) (e : Defect) → (b ≡ true → P tt) → Gives P (assert b e)
unfolding assert
Gives-holds true e k = record { at = k refl }
Gives-holds false e k = record { at = tt }

-- What a computation gives may be weakened.
pub weaken {ℓ κ} :
    {A : Type 0} {P : A → Type κ} {Q : A → Type ℓ} {m : Decoded A}
    → Gives P m
    → ((a : A) → P a → Q a)
    → Gives Q m
weaken {A} {P} {Q} {m} h k = record { at = Holds-map m h.at }
  where
    Holds-map : (m : Decoded A) → Holds P m → Holds Q m
    Holds-map (value a) p = k a p
    Holds-map (defective e) p = tt
