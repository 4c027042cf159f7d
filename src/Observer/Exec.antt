-- ===== src/Observer/Exec.antt =====
-- tools/client/observer.ts: an asynchronous method as a computation that counts the reads it makes,
-- with the failure that it throws.
use challenge_escrow_protoco.Prelude.{ℕ, ◌+◌, ◌≡◌, refl, Bool, true, false, if◌then◌else◌}
use challenge_escrow_protoco.Observer.Types.{Answer, answered, broken, Failure, read_failed}

pub data Result {ℓ} (A : Type ℓ) : Type ℓ where
  ok : A → Result A
  failed : Failure → Result A

abbrev pub Exec : Type 0 → Type 0
Exec A = ℕ → Result A × ℕ

-- The rest of a method after a result.
abbrev pub next : {A B : Type 0} → Result A → (A → Exec B) → Exec B
next (ok a) f s = f a s
next (failed e) f s = (failed e, s)

infixl 5 ◌>>=◌ ◌>>◌
unfoldable pub ◌>>=◌ : {A B : Type 0} → Exec A → (A → Exec B) → Exec B
◌>>=◌ m f s = let (r, s') = m s in next r f s'

unfoldable pub ◌>>◌ : {A B : Type 0} → Exec A → Exec B → Exec B
m >> n = m >>= λ _. n

unfoldable pub done : {A : Type 0} → A → Exec A
done a s = (ok a, s)

unfoldable pub fail : {A : Type 0} → Failure → Exec A
fail e s = (failed e, s)

unfoldable pub fail_if : Bool → Failure → Exec (Unit {0})
fail_if b e s = (if b then failed e else ok tt, s)

abbrev received : {A : Type 0} → Answer A → Result A
received (answered a) = ok a
received broken = failed read_failed

-- `await`, on a read of the provider.
unfoldable pub await : {A : Type 0} → (ℕ → Answer A) → Exec A
await read s = (received (read s), s + 1)

-- `P` holds of what is returned, if the method returns.
abbrev pub Holds {ℓ} : {A : Type 0} → (A → Type ℓ) → Result A → Type ℓ
Holds P (ok a) = P a
Holds P (failed e) = Unit

pub record Ensures {ℓ} {A : Type 0} (P : A → Type ℓ) (m : Exec A) : Type ℓ where
  pub at : (s : ℕ) → Holds P (m s).0

module _ {ℓ} {A : Type 0} where
  Holds-next {κ} :
      {B : Type 0} (P : A → Type κ) (Q : B → Type ℓ) (f : A → Exec B) (r : Result A) (s : ℕ)
      → Holds P r
      → ((a : A) → P a → Ensures Q (f a))
      → Holds Q (next r f s).0
  Holds-next P Q f (ok a) s p h = (h a p).at s
  Holds-next P Q f (failed e) s p h = tt

  -- The rule of sequencing.
  pub Ensures-bind {κ} :
      {B : Type 0} {P : A → Type κ} {Q : B → Type ℓ} (m : Exec A) (f : A → Exec B)
      → Ensures P m
      → ((a : A) → P a → Ensures Q (f a))
      → Ensures Q (m >>= f)
  unfolding ◌>>=◌
  Ensures-bind {B} {P} {Q} m f h k = record {
    at = λ s. let (r, s') = m s in Holds-next P Q f r s' (h.at s) k;
  }

  -- What a method ensures may be weakened.
  pub weaken {κ} :
      {P : A → Type κ} {Q : A → Type ℓ} (m : Exec A)
      → Ensures P m
      → ((a : A) → P a → Q a)
      → Ensures Q m
  weaken {P} {Q} m h k = record { at = λ s. let (r, s') = m s in Holds-map r (h.at s) }
    where
      Holds-map : (r : Result A) → Holds P r → Holds Q r
      Holds-map (ok a) p = k a p
      Holds-map (failed e) p = tt

  pub Ensures-done : {P : A → Type ℓ} (a : A) → P a → Ensures P (done a)
  unfolding done
  Ensures-done a p = record { at = λ s. p }

  pub Ensures-fail : {P : A → Type ℓ} (e : Failure) → Ensures P (fail e)
  unfolding fail
  Ensures-fail e = record { at = λ s. tt }

-- After a test that may fail, the test is false.
pub Ensures-fail_if : (b : Bool) (e : Failure) → Ensures (λ u. b ≡ false) (fail_if b e)
unfolding fail_if
Ensures-fail_if true e = record { at = λ s. tt }
Ensures-fail_if false e = record { at = λ s. refl }

-- The rule of sequencing, after a test.
pub Ensures-unless {ℓ} :
    {B : Type 0} {Q : B → Type ℓ} (b : Bool) (e : Failure) (n : Exec B)
    → (b ≡ false → Ensures Q n)
    → Ensures Q (fail_if b e >> n)
unfolding ◌>>◌
Ensures-unless b e n k = Ensures-bind (fail_if b e) (λ u. n) (Ensures-fail_if b e) (λ u h. k h)

-- Of a method of which nothing is known.
pub Ensures-any : {A : Type 0} (m : Exec A) → Ensures (λ (a : A). Unit {0}) m
Ensures-any {A} m = record { at = λ s. whatever (m s).0 }
  where
    whatever : (r : Result A) → Holds (λ (a : A). Unit {0}) r
    whatever (ok a) = tt
    whatever (failed e) = tt

-- The rule of sequencing, after a method that returns nothing.
pub Ensures-then {ℓ} :
    {A B : Type 0} {Q : B → Type ℓ} (m : Exec A) (n : Exec B) → Ensures Q n → Ensures Q (m >> n)
unfolding ◌>>◌
Ensures-then m n k = Ensures-bind m (λ u. n) (Ensures-any m) (λ u h. k)
