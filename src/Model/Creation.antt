-- ===== src/Model/Creation.antt =====
-- `create` on a valid model is good: a new challenge is stored under an identifier that was free.
use challenge_escrow_protoco.Prelude.{
  ◌+◌, String, ◌≡◌, refl, sym, subst, inl, inr, Bool, false, none, arith, ◌⊎◌, Dict, contains,
  includes, lookup, AllEntries-insert, total_of-insert_new,
}
use challenge_escrow_protoco.Model.Doubles.{double-exact}
use challenge_escrow_protoco.Model.Types.{Code, Challenge, Model, Create}
use challenge_escrow_protoco.Model.Exec.{Result, ok, rejected}
use challenge_escrow_protoco.Model.Opening
use challenge_escrow_protoco.Model.Opening.{nonce_key, fresh}
use challenge_escrow_protoco.Model.Phase.{Phase}
use challenge_escrow_protoco.Model.Spec
use challenge_escrow_protoco.Model.Spec.{terms_of}
use challenge_escrow_protoco.Model.Refine
use challenge_escrow_protoco.Model.Refine.{stored}
use challenge_escrow_protoco.Model.Sound.{IsSound}
use challenge_escrow_protoco.Model.Invariant.{
  IsEntry, HasEntries, Good, outstanding, Evolves-insert,
}

contains-false : (id : String) (l : Dict Challenge) → contains id l ≡ false → lookup id l ≡ none
contains-false id l h = ground arith

stored-HasEntries :
    (m : Model) (a : Create)
    → HasEntries m
    → IsSound (terms_of a) (Phase.opened 0)
    → HasEntries (stored m a (ok (Phase.opened 0))).1
stored-HasEntries m a v sound =
    AllEntries-insert IsEntry a.id (fresh a) m.challenges
      (record {
        terms = terms_of a;
        phase = Phase.opened 0;
        object = refl;
        named = refl;
        sound = sound;
      })
      v

stored-Good :
    (m : Model) (a : Create) (r : Result Phase)
    → HasEntries m
    → (r ≡ ok (Phase.opened 0)
        → contains a.id m.challenges ≡ false × IsSound (terms_of a) (Phase.opened 0))
    → (r ≡ ok (Phase.opened 0)) ⊎ ((c : Code) × (r ≡ rejected c))
    → Good m (stored m a r)
stored-Good m a r v facts (inl e) =
    let (free, sound) = facts e in
    let absent : lookup a.id m.challenges ≡ none = contains-false a.id m.challenges free in
    let after = (stored m a (ok (Phase.opened 0))).1 in
    let entries : HasEntries after = stored-HasEntries m a v sound in
    rw e (
      entries,
      Evolves-insert m after a.id (fresh a) refl (λ c found. cc (absent, found)),
      (λ valid safe.
          let sum = total_of-insert_new outstanding a.id (fresh a) m.challenges absent in
          let exact =
            double-exact (m.total_outstanding_liability + a.stake)
              (omega (arith, valid.solvent, sum, safe)) in
          record {
            entries = entries;
            solvent = omega (arith, valid.solvent, sum, exact);
            safe = safe;
          }),
    )
stored-Good m a r v facts (inr (c, e)) = rw e refl

create-admits :
    (paused known used : Bool) (a : Create)
    → Spec.create paused known used a ≡ ok (Phase.opened 0)
    → (known ≡ false) × IsSound (terms_of a) (Phase.opened 0)
unfolding Spec.create
create-admits paused known used a h = ground arith

create-cases :
    (paused known used : Bool) (a : Create)
    → (Spec.create paused known used a ≡ ok (Phase.opened 0))
      ⊎ ((c : Code) × (Spec.create paused known used a ≡ rejected c))
unfolding Spec.create
create-cases paused known used a = ground arith

pub create-Good : (m : Model) (a : Create) → HasEntries m → Good m (Opening.create a m)
create-Good m a v = subst (Good m) (sym (Refine.create-Refines m a)) (
    stored-Good m a (Spec.create m.paused known used a) v (create-admits m.paused known used a)
      (create-cases m.paused known used a))
  where
    known : Bool
    known = contains a.id m.challenges

    used : Bool
    used = includes m.used_nonces (nonce_key a)
