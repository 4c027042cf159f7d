-- ===== src/Observer/Returning.antt =====
-- When a method of tools/client/observer.ts returns: the rules of sequencing for success.
use challenge_escrow_protoco.Prelude.{ℕ, ◌≡◌, refl, ap, ◌∙◌, Bool, false}
use challenge_escrow_protoco.Observer.Types.{Answer, answered, Failure}
use challenge_escrow_protoco.Observer.Exec.{ok, Exec, next, ◌>>=◌, ◌>>◌, done, fail_if, await}

-- The method returns, and `P` holds of what it returns.
pub record Returns {ℓ} {A : Type 0} (P : A → Type ℓ) (m : Exec A) : Type ℓ where
  pub at : (s : ℕ) → (a : A) × ((m s).0 ≡ ok a) × P a

module _ {ℓ} {A : Type 0} where
  pub Returns-bind {κ} :
      {B : Type 0} {P : A → Type κ} {Q : B → Type ℓ} (m : Exec A) (f : A → Exec B)
      → Returns P m
      → ((a : A) → P a → Returns Q (f a))
      → Returns Q (m >>= f)
  unfolding ◌>>=◌
  Returns-bind m f h k = record {
    at = λ s.
        let (a, e, p) = h.at s in
        let (b, e', q) = (k a p).at (m s).1 in (b, ap (λ r. (next r f (m s).1).0) e ∙ e', q);
  }

  pub Returns-done : {P : A → Type ℓ} (a : A) → P a → Returns P (done a)
  unfolding done
  Returns-done a p = record { at = λ s. (a, refl, p) }

  -- What a method returns may be weakened.
  pub Returns-map {κ} :
      {P : A → Type κ} {Q : A → Type ℓ} (m : Exec A)
      → Returns P m
      → ((a : A) → P a → Q a)
      → Returns Q m
  Returns-map m h k = record { at = λ s. let (a, e, p) = h.at s in (a, e, k a p) }

  -- A test that does not fail.
  pub Returns-unless :
      {Q : A → Type ℓ} (b : Bool) (e : Failure) (n : Exec A)
      → b ≡ false
      → Returns Q n
      → Returns Q (fail_if b e >> n)
  unfolding ◌>>◌ fail_if ◌>>=◌
  Returns-unless b e n h k = rw h (record { at = λ s. k.at s })

-- A read whose answer is known.
pub Returns-await :
    {A : Type 0} (read : ℕ → Answer A) (a : A)
    → ((s : ℕ) → read s ≡ answered a)
    → Returns (λ b. b ≡ a) (await read)
unfolding await
Returns-await read a h = record { at = λ s. (a, rw (h s) refl, refl) }
