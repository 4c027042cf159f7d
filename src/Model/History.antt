-- ===== src/Model/History.antt =====
-- What never changes in the life of a challenge: its terms, and its decision once it is made.
use challenge_escrow_protoco.Prelude.{
  ◌≤◌, String, ◌≡◌, true, some, List, [], ◌∷◌, lookup, arith, subst, sym, ap,
}
use challenge_escrow_protoco.Model.Types.{Challenge, Model, Action}
use challenge_escrow_protoco.Model.Phase.{Terms, Phase, a_won, b_won, concretize}
use challenge_escrow_protoco.Model.Step.{Step}
use challenge_escrow_protoco.Model.Invariant.{HasEntries, Moves, still, moved}
use challenge_escrow_protoco.Model.Machine.{apply, run}
use challenge_escrow_protoco.Model.Replies.{apply-kept}
use challenge_escrow_protoco.Model.Exit.{is_terminal}

-- What a later object keeps of an earlier one.
pub record Inherits (c c' : Challenge) : Type 0 where
  pub id : c'.id ≡ c.id
  pub challenger : c'.challenger ≡ c.challenger
  pub side : c'.challenger_side ≡ c.challenger_side
  pub stake : c'.stake ≡ c.stake
  pub schedule : c'.schedule ≡ c.schedule
  pub challenger_paid : c.paid.challenger ≤ c'.paid.challenger
  pub acceptor_paid : c.paid.acceptor ≤ c'.paid.acceptor
  pub terminal : is_terminal c.state ≡ true → c'.state ≡ c.state
  pub decided : is_terminal c.state ≡ true → c'.final ≡ c.final
  pub participants : is_terminal c.state ≡ true → c'.acceptor ≡ c.acceptor

Step-Inherits :
    (t : Terms) (ph next : Phase) → Step t ph next → Inherits (concretize t ph) (concretize t next)
Step-Inherits t _ _ (Step.advance n now h) = ground arith
Step-Inherits t _ _ (Step.accept n now a h) = ground arith
Step-Inherits t _ _ (Step.cancel n now h) = ground arith
Step-Inherits t _ _ (Step.expire n now h) = ground arith
Step-Inherits t _ _ (Step.propose n a p h h') = ground arith
Step-Inherits t _ _ (Step.dispute n a p d h) = ground arith
Step-Inherits t _ _ (Step.finalize n now a p h) = ground arith
Step-Inherits t _ _ (Step.arbitrate n now a p d o e h) = ground arith
Step-Inherits t _ _ (Step.time_out n now a h) = ground arith
Step-Inherits t _ _ (Step.time_out_dispute n now a p d h) = ground arith
Step-Inherits t _ _ (Step.claim k a_won e) = ground arith
Step-Inherits t _ _ (Step.claim k b_won e) = ground arith
Step-Inherits t _ _ (Step.refund_cancelled n) = ground arith
Step-Inherits t _ _ (Step.refund_expired n) = ground arith
Step-Inherits t _ _ (Step.refund_challenger k e paid) = ground arith
Step-Inherits t _ _ (Step.refund_acceptor k e paid) = ground arith

Inherits-refl : (c : Challenge) → Inherits c c
Inherits-refl c = ground arith

Inherits-trans : (a b c : Challenge) → Inherits a b → Inherits b c → Inherits a c
Inherits-trans a b c h k = ground (arith, ap is_terminal {x = b.state} {y = a.state})

Moves-Inherits : (c c' : Challenge) → Moves c c' → Inherits c c'
Moves-Inherits c c' (still e) = subst (Inherits c) (sym e) (Inherits-refl c)
Moves-Inherits c c' (moved t ph next e e' h h' st) =
    subst (λ x. Inherits x c') (sym e)
      (subst (Inherits (concretize t ph)) (sym e') (Step-Inherits t ph next st))

-- In a run from a model whose challenges are sound, whether its sums are safe or not, no challenge is
-- lost. Its terms stay, what it has paid never falls, and once it is terminal its state, its participants
-- and its final outcome never change.
pub run-Inherits :
    (actions : List Action) (m : Model) (id : String) (c : Challenge)
    → HasEntries m
    → lookup id m.challenges ≡ some c
    → (c' : Challenge) × (lookup id (run actions m).challenges ≡ some c') × Inherits c c'
unfolding run
run-Inherits [] m id c v found = (c, found, Inherits-refl c)
run-Inherits (a ∷ rest) m id c v found =
    let m' = (apply a m).1 in
    let (entries, evolves) = apply-kept a m v in
    let (b, here, step) = evolves.at id c found in
    let (c', there, more) = run-Inherits rest m' id b entries here in
    (c', there, Inherits-trans c b c' (Moves-Inherits c b step) more)
