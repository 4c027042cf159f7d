-- ===== src/Model/Drain.antt =====
-- A terminal challenge is emptied by the actions of those who are entitled, in whatever order some of
-- them have been taken before.
use challenge_escrow_protoco.Prelude.{
  ℕ, ◌≤◌, String, ◌≡◌, ◌⊎◌, inl, inr, refl, true, Bool, false, Option, some, none, List, [], ◌∷◌,
  lookup, lookup-insert, eq_refl, arith, subst, sym, ap, ◌∙◌, AllEntries-lookup, str_eq,
  str_eq_comm,
}
use challenge_escrow_protoco.Model.Types.{
  State, cancelled, expired, void, resolved_a, resolved_b, for_a, for_b, Code, Challenge, Model,
  Action,
}
use challenge_escrow_protoco.Model.Exec.{Result, ok, rejected}
use challenge_escrow_protoco.Model.Shared.{winner}
use challenge_escrow_protoco.Model.Payout
use challenge_escrow_protoco.Model.Phase.{
  Terms, Phase, Verdict, a_won, b_won, Course, outcome_of, held, concretize,
}
use challenge_escrow_protoco.Model.Spec
use challenge_escrow_protoco.Model.Spec.{winner_of}
use challenge_escrow_protoco.Model.Settle.{settled}
use challenge_escrow_protoco.Model.Refine
use challenge_escrow_protoco.Model.Sound.{IsSound}
use challenge_escrow_protoco.Model.Invariant.{
  IsEntry, IsSafe, IsValid, settled-IsSafe, held-le-liability, find_challenge_found,
}
use challenge_escrow_protoco.Model.Machine.{dispatch, apply, run}
use challenge_escrow_protoco.Model.Replies.{run-IsValid}
use challenge_escrow_protoco.Model.Exit.{is_terminal}

abbrev text_of : Option String → String
text_of none = ""
text_of (some s) = s

-- The claims and refunds that a terminal state allows.
abbrev pub payouts : String → Challenge → State → List Action
payouts id c resolved_a = Action.claim id (text_of (winner c for_a)) ∷ []
payouts id c resolved_b = Action.claim id (text_of (winner c for_b)) ∷ []
payouts id c cancelled = Action.refund id c.challenger ∷ []
payouts id c expired = Action.refund id c.challenger ∷ []
payouts id c void = Action.refund id c.challenger ∷ Action.refund id (text_of c.acceptor) ∷ []
payouts id c _ = []

-- The claim of the winner names the wallet of the specification.
winner_text :
    (t : Terms) (k : Course) (v : Verdict) (e : Option String) (paid : Bool)
    → text_of (winner (concretize t (Phase.resolved k v e paid)) (outcome_of v)) ≡ winner_of t k v
winner_text t k a_won e paid = ground arith
winner_text t k b_won e paid = ground arith

-- A payment is made, or it was made before.
Pays : Phase → Phase → Result Phase → Type 0
Pays ph next r = (r ≡ ok next) ⊎ ((ph ≡ next) × ((c : Code) × (r ≡ rejected c)))

module _ (m : Model) (id : String) (t : Terms) (v : IsValid m) where
  lookup-settled :
      (ph next : Phase) (r : Result Phase)
      → lookup id m.challenges ≡ some (concretize t ph)
      → Pays ph next r
      → lookup id (settled m id t ph r).1.challenges ≡ some (concretize t next)
  unfolding Pays
  lookup-settled ph next r found (inl e) = rw (e, lookup-insert, eq_refl id) refl
  lookup-settled ph next r found (inr (same, (c, e))) =
      rw e (found ∙ ap (λ p. some (concretize t p)) same)

  settled-Pays-IsSafe :
      (ph next : Phase) (r : Result Phase)
      → lookup id m.challenges ≡ some (concretize t ph)
      → Pays ph next r
      → held t next ≤ held t ph
      → IsSafe (settled m id t ph r).1
  unfolding Pays
  settled-Pays-IsSafe ph next r found (inl e) less =
      rw e (settled-IsSafe m id t ph next v.safe found less)
  settled-Pays-IsSafe ph next r found (inr (same, (c, e))) less = rw e v.safe

  refund-IsSafe :
      (ph next : Phase) (caller : String)
      → lookup id m.challenges ≡ some (concretize t ph)
      → IsSound t ph
      → Pays ph next (Spec.refund t ph caller)
      → held t next ≤ held t ph
      → IsSafe (apply (Action.refund id caller) m).1
  unfolding apply dispatch Payout.refund
  refund-IsSafe ph next caller found h pays less =
      subst (λ (s : Result (Unit {0}) × Model). IsSafe s.1)
        (sym (
          find_challenge_found m id (λ c. Payout.refund_of c id caller) (concretize t ph) found
          ∙ Refine.refund-Refines m id t h.staked ph caller h.distinct
              (held-le-liability m id t ph v found)))
        (settled-Pays-IsSafe ph next (Spec.refund t ph caller) found pays less)

  after_claim :
      (ph next : Phase) (caller : String)
      → lookup id m.challenges ≡ some (concretize t ph)
      → IsSound t ph
      → Pays ph next (Spec.claim t ph caller)
      → lookup id (apply (Action.claim id caller) m).1.challenges ≡ some (concretize t next)
  unfolding apply dispatch Payout.claim
  after_claim ph next caller found h pays =
      ap (λ (s : Result (Unit {0}) × Model). lookup id s.1.challenges)
        (find_challenge_found m id (λ c. Payout.claim_of c id caller) (concretize t ph) found
          ∙ Refine.claim-Refines m id t h.staked ph caller h.distinct
              (held-le-liability m id t ph v found))
      ∙ lookup-settled ph next (Spec.claim t ph caller) found pays

  after_refund :
      (ph next : Phase) (caller : String)
      → lookup id m.challenges ≡ some (concretize t ph)
      → IsSound t ph
      → Pays ph next (Spec.refund t ph caller)
      → lookup id (apply (Action.refund id caller) m).1.challenges ≡ some (concretize t next)
  unfolding apply dispatch Payout.refund
  after_refund ph next caller found h pays =
      ap (λ (s : Result (Unit {0}) × Model). lookup id s.1.challenges)
        (find_challenge_found m id (λ c. Payout.refund_of c id caller) (concretize t ph) found
          ∙ Refine.refund-Refines m id t h.staked ph caller h.distinct
              (held-le-liability m id t ph v found))
      ∙ lookup-settled ph next (Spec.refund t ph caller) found pays

module _ (t : Terms) where
  claims :
      (k : Course) (v : Verdict) (e : Option String) (paid : Bool)
      → Pays
          (Phase.resolved k v e paid)
          (Phase.resolved k v e true)
          (Spec.claim t (Phase.resolved k v e paid) (winner_of t k v))
  unfolding Pays Spec.claim
  claims k v e true = ground (arith, eq_refl (winner_of t k v))
  claims k v e false = ground (arith, eq_refl (winner_of t k v))

  refunds_cancelled :
      (n : ℕ) (paid : Bool)
      → Pays
          (Phase.cancelled n paid)
          (Phase.cancelled n true)
          (Spec.refund t (Phase.cancelled n paid) t.challenger)
  unfolding Pays Spec.refund
  refunds_cancelled n paid = ground (arith, eq_refl t.challenger)

  refunds_expired :
      (n : ℕ) (paid : Bool)
      → Pays
          (Phase.expired n paid)
          (Phase.expired n true)
          (Spec.refund t (Phase.expired n paid) t.challenger)
  unfolding Pays Spec.refund
  refunds_expired n paid = ground (arith, eq_refl t.challenger)

  refunds_challenger :
      (k : Course) (e : Option String) (paid_c paid_a : Bool)
      → Pays
          (Phase.void k e paid_c paid_a)
          (Phase.void k e true paid_a)
          (Spec.refund t (Phase.void k e paid_c paid_a) t.challenger)
  unfolding Pays Spec.refund
  refunds_challenger k e paid_c paid_a = ground (arith, eq_refl t.challenger)

  refunds_acceptor :
      (k : Course) (e : Option String) (paid_c paid_a : Bool)
      → str_eq t.challenger k.acceptor ≡ false
      → Pays
          (Phase.void k e paid_c paid_a)
          (Phase.void k e paid_c true)
          (Spec.refund t (Phase.void k e paid_c paid_a) k.acceptor)
  unfolding Pays Spec.refund
  refunds_acceptor k e paid_c paid_a d =
      ground (arith, eq_refl k.acceptor, str_eq_comm k.acceptor t.challenger)

-- The challenge is stored with nothing outstanding.
abbrev pub IsEmptied : Model → String → Type 0
IsEmptied m id = (c' : Challenge) × (lookup id m.challenges ≡ some c') × (c'.outstanding ≡ 0)

drained_at :
    (m : Model) (id : String) (t : Terms) (ph : Phase)
    → IsValid m
    → lookup id m.challenges ≡ some (concretize t ph)
    → IsSound t ph
    → is_terminal (concretize t ph).state ≡ true
    → IsEmptied (run (payouts id (concretize t ph) (concretize t ph).state) m) id
unfolding run
drained_at m id t (Phase.cancelled n paid) v found h end = (
  concretize t (Phase.cancelled n true),
  (after_refund m id t v (Phase.cancelled n paid) (Phase.cancelled n true) t.challenger found h
      (refunds_cancelled t n paid)),
  refl,
)
drained_at m id t (Phase.expired n paid) v found h end = (
  concretize t (Phase.expired n true),
  (after_refund m id t v (Phase.expired n paid) (Phase.expired n true) t.challenger found h
      (refunds_expired t n paid)),
  refl,
)
drained_at m id t (Phase.resolved k a_won e paid) v found h end =
    subst (λ w. IsEmptied (run (Action.claim id w ∷ []) m) id) (sym (winner_text t k a_won e paid))
      ((
        concretize t (Phase.resolved k a_won e true),
        (after_claim m id t v (Phase.resolved k a_won e paid) (Phase.resolved k a_won e true)
            (winner_of t k a_won) found h (claims t k a_won e paid)),
        refl,
      ))
drained_at m id t (Phase.resolved k b_won e paid) v found h end =
    subst (λ w. IsEmptied (run (Action.claim id w ∷ []) m) id) (sym (winner_text t k b_won e paid))
      ((
        concretize t (Phase.resolved k b_won e true),
        (after_claim m id t v (Phase.resolved k b_won e paid) (Phase.resolved k b_won e true)
            (winner_of t k b_won) found h (claims t k b_won e paid)),
        refl,
      ))
drained_at m id t (Phase.void k e paid_c paid_a) v found h end =
    let first = Action.refund id t.challenger in
    let m1 = (apply first m).1 in
    let half : lookup id m1.challenges ≡ some (concretize t (Phase.void k e true paid_a)) =
      after_refund m id t v (Phase.void k e paid_c paid_a) (Phase.void k e true paid_a) t.challenger
        found h (refunds_challenger t k e paid_c paid_a) in
    let safe : IsSafe m1 =
      refund-IsSafe m id t v (Phase.void k e paid_c paid_a) (Phase.void k e true paid_a)
        t.challenger found h (refunds_challenger t k e paid_c paid_a) (ground arith) in
    (
      concretize t (Phase.void k e true true),
      (after_refund m1 id t (run-IsValid (first ∷ []) m v (safe, tt)) (Phase.void k e true paid_a)
          (Phase.void k e true true) k.acceptor half
          (record {
            ordered = h.ordered;
            staked = h.staked;
            distinct = h.distinct;
            timed = h.timed;
          })
          (refunds_acceptor t k e true paid_a h.distinct)),
      refl,
    )
drained_at m id t (Phase.opened n) v found h end = cc
drained_at m id t _ v found h end = cc

-- In a valid model, whose liability is exact and a safe integer, the claims and refunds that a terminal
-- challenge allows leave nothing outstanding for it, whichever of them have been made before.
pub payouts-drain :
    (m : Model) (id : String) (c : Challenge)
    → IsValid m
    → lookup id m.challenges ≡ some c
    → is_terminal c.state ≡ true
    → IsEmptied (run (payouts id c c.state) m) id
payouts-drain m id c v found end =
    let e : IsEntry id c = AllEntries-lookup IsEntry id {v = c} m.challenges v.entries found in
    subst (λ x. IsEmptied (run (payouts id x x.state) m) id) (sym e.object)
      (drained_at m id e.terms e.phase v (found ∙ ap some e.object) e.sound
        (sym (ap (λ (x : Challenge). is_terminal x.state) e.object) ∙ end))
