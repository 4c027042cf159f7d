-- ===== src/Model/Refine/Creation.antt =====
-- `create` against the specification.
use challenge_escrow_protoco.Prelude.{◌+◌, ◌≡◌, ◌∷◌, contains, insert, includes, arith}
use challenge_escrow_protoco.Model.Doubles.{double}
use challenge_escrow_protoco.Model.Types.{Create, Model}
use challenge_escrow_protoco.Model.Exec.{Result, ok, rejected, crashed}
use challenge_escrow_protoco.Model.Opening.{create, nonce_key}
use challenge_escrow_protoco.Model.Phase.{Phase, concretize}
use challenge_escrow_protoco.Model.Spec
use challenge_escrow_protoco.Model.Spec.{terms_of}

-- The effect of an admitted creation.
abbrev pub stored : Model → Create → Result Phase → Result (Unit {0}) × Model
stored m a (ok ph) = (
  ok tt,
  record m {
    challenges = insert a.id (concretize (terms_of a) ph) m.challenges;
    used_nonces = nonce_key a ∷ m.used_nonces;
    total_outstanding_liability = double (m.total_outstanding_liability + a.stake);
  },
)
stored m a (rejected c) = (rejected c, m)
stored m a (crashed x) = (crashed x, m)

-- On every model and creation, `create` does what its specification says: it stores the object of
-- an unaccepted challenge, with its nonce and its stake in the liability, or it rejects with the
-- code of the first condition that fails and changes nothing.
pub create-Refines :
    (m : Model) (a : Create)
    → create a m
      ≡ stored m a (
          Spec.create m.paused
            (contains a.id m.challenges)
            (includes m.used_nonces (nonce_key a))
            a)
unfolding create Spec.create
create-Refines m a = ground arith
