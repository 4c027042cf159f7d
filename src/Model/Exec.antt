-- ===== src/Model/Exec.antt =====
-- tools/model/challenge-model.mjs: a method of the model as an action on its state. A rejection or a
-- fault is thrown, and what was written before stays written.
use challenge_escrow_protoco.Prelude.{Bool, Option, none, some, if◌then◌else◌}
use challenge_escrow_protoco.Model.Types.{Model, Code, Fault, type_error}

pub data Result {ℓ} (A : Type ℓ) : Type ℓ where
  ok : A → Result A
  rejected : Code → Result A
  crashed : Fault → Result A

abbrev pub Exec : Type 0 → Type 0
Exec A = Model → Result A × Model

infixl 5 ◌>>=◌ ◌>>◌
abbrev pub ◌>>=◌ : {A B : Type 0} → Exec A → (A → Exec B) → Exec B
◌>>=◌ m f s =
    let (r, s') = m s in
    elim r [ ok a ↦ f a s' | rejected c ↦ (rejected c, s') | crashed x ↦ (crashed x, s') ]

abbrev pub ◌>>◌ : {A B : Type 0} → Exec A → Exec B → Exec B
m >> n = m >>= λ _. n

abbrev pub done : Exec (Unit {0})
done s = (ok tt, s)

-- `reject(code)`
abbrev pub reject : {A : Type 0} → Code → Exec A
reject c s = (rejected c, s)

abbrev pub reject_if : Bool → Code → Exec (Unit {0})
reject_if b c s = (if b then rejected c else ok tt, s)

-- A value that must be there, or the rejection.
abbrev pub or_reject : {A : Type 0} → Option A → Code → Exec A
or_reject none c s = (rejected c, s)
or_reject (some a) c s = (ok a, s)

-- A read through a value that may be null.
abbrev pub read : {A : Type 0} → Option A → Exec A
read none s = (crashed type_error, s)
read (some a) s = (ok a, s)

-- `this`
abbrev pub this : Exec Model
this s = (ok s, s)
