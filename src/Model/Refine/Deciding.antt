-- ===== src/Model/Refine/Deciding.antt =====
-- The handlers that decide an accepted challenge against the specification.
use challenge_escrow_protoco.Prelude.{
  ℕ, ◌+◌, String, ◌≡◌, inl, inr, Option-cases, false, Dict, [], ◌∷◌, Option, some, none, str_eq,
  arith, eq_refl, insert, insert-insert,
}
use challenge_escrow_protoco.Model.Types.{
  State, Outcome, for_a, for_b, for_void, Challenge, Model, Propose, Answer,
}
use challenge_escrow_protoco.Model.Exec.{ok}
use challenge_escrow_protoco.Model.Deciding.{
  propose_of, dispute_of, set_final, finalize_of, arbitrate_of, void_unproposed_of,
  void_unarbitrated_of,
}
use challenge_escrow_protoco.Model.Phase.{
  Terms, Phase, Course, accepted, nothing, share, held, IsDistinct, concretize,
}
use challenge_escrow_protoco.Model.Spec
use challenge_escrow_protoco.Model.Spec.{conclude, proposed_course, disputed_course, silent_course}
use challenge_escrow_protoco.Model.Settle.{settled}

-- On the object of any phase, `propose` does what its specification says: an active challenge
-- becomes proposed, or the call rejects with the code of the first condition that fails and
-- changes nothing.
pub propose-Refines :
    (m : Model) (t : Terms) (ph : Phase) (x : Propose)
    → propose_of (concretize t ph) x m ≡ settled m x.id t ph (Spec.propose m.resolver t ph x)
unfolding propose_of Spec.propose
propose-Refines m t (Phase.active n a) x = ground arith
propose-Refines m t _ x = ground arith

-- On the object of any phase, `dispute` does what its specification says: a proposed challenge
-- becomes disputed, with arbitration starting at the later of the dispute and the correction
-- cutoff, or the call rejects with the code of the first condition that fails and changes
-- nothing.
pub dispute-Refines :
    (m : Model) (t : Terms) (ph : Phase) (x : Answer)
    → dispute_of (concretize t ph) x m ≡ settled m x.id t ph (Spec.dispute t ph x)
unfolding dispute_of Spec.dispute
dispute-Refines m t (Phase.proposed n a p) x = ground arith
dispute-Refines m t _ x = ground arith

-- An accepted object with its course, before the decision.
abbrev undecided : Terms → Course → State → Challenge
undecided t k state =
    let c = accepted t k.nonce k.acceptor state in
    record c { proposal = k.proposal; dispute = k.dispute }

-- The object when `final` and the state are written, and no entitlement yet.
abbrev marked : Terms → Course → Phase → Challenge
marked t k ph = record (concretize t ph) {
  entitlements = (t.challenger, nothing) ∷ (k.acceptor, nothing) ∷ [];
}

-- The object when the challenger has its entitlement and the acceptor has none.
abbrev half_marked : Terms → Course → Phase → Challenge
half_marked t k ph = record (concretize t ph) {
  entitlements = (t.challenger, share t.stake false) ∷ (k.acceptor, nothing) ∷ [];
}

-- The object when `final` is written alone.
abbrev sealed : Terms → Course → State → Outcome → Option String → Challenge
sealed t k state o e = record (undecided t k state) {
  final = some (record { outcome = o; evidence_hash = e });
}

-- Of several writes to one challenge the last one stays.
write_thrice :
    (id : String) (a b c : Challenge) (l : Dict Challenge)
    → insert id c (insert id b (insert id a l)) ≡ insert id c l
write_thrice id a b c l = simp insert-insert

-- A decision moves no tokens.
held-conclude :
    (t : Terms) (k : Course) (o : Outcome) (e : Option String)
    → held t (conclude k o e) ≡ t.stake + t.stake
held-conclude t k for_a e = omega arith
held-conclude t k for_b e = omega arith
held-conclude t k for_void e = omega arith

module _ (m : Model) (id : String) (t : Terms) where
  -- `set_final` stores the object of the phase that the outcome leads to, with its entitlements.
  set_final_lem :
      (k : Course) (state : State) (o : Outcome) (e : Option String)
      → str_eq t.challenger k.acceptor ≡ false
      → set_final (undecided t k state) id o e m
        ≡ (ok tt, record m { challenges = insert id (concretize t (conclude k o e)) m.challenges })
  unfolding set_final
  set_final_lem k state for_a e distinct = ground (
    arith,
    eq_refl t.challenger,
    eq_refl k.acceptor,
    write_thrice id (sealed t k state for_a e) (marked t k (conclude k for_a e))
        (concretize t (conclude k for_a e)) m.challenges,
  )
  set_final_lem k state for_b e distinct = ground (
    arith,
    eq_refl t.challenger,
    eq_refl k.acceptor,
    write_thrice id (sealed t k state for_b e) (marked t k (conclude k for_b e))
        (concretize t (conclude k for_b e)) m.challenges,
  )
  set_final_lem k state for_void e distinct = ground (
    arith,
    eq_refl t.challenger,
    eq_refl k.acceptor,
    write_thrice id (marked t k (conclude k for_void e)) (half_marked t k (conclude k for_void e))
        (concretize t (conclude k for_void e))
        (insert id (sealed t k state for_void e) m.challenges),
    insert-insert id (concretize t (conclude k for_void e)) (sealed t k state for_void e)
        m.challenges,
  )

  -- On the object of any phase with two distinct participants, `finalize` does what its
  -- specification says: a proposed challenge is concluded with the proposed outcome and its
  -- evidence, or the call rejects with the code of the first condition that fails and changes
  -- nothing.
  pub finalize-Refines :
      (ph : Phase) (now : ℕ)
      → IsDistinct t ph
      → finalize_of (concretize t ph) id now m ≡ settled m id t ph (Spec.finalize t ph now)
  unfolding finalize_of Spec.finalize
  finalize-Refines (Phase.proposed n a p) now distinct = ground (
    arith,
    set_final_lem (proposed_course n a p) State.proposed p.outcome (some p.evidence_hash) distinct,
    held-conclude t (proposed_course n a p) p.outcome (some p.evidence_hash),
  )
  finalize-Refines _ now distinct = ground arith

  -- On the object of any phase with two distinct participants, `arbitrate` does what its
  -- specification says: a disputed challenge is concluded with the outcome of the arbiter and its
  -- evidence, or the call rejects with the code of the first condition that fails and changes
  -- nothing.
  pub arbitrate-Refines :
      (ph : Phase) (x : Answer)
      → IsDistinct t ph
      → x.id ≡ id
      → arbitrate_of (concretize t ph) x m ≡ settled m id t ph (Spec.arbitrate m.arbiter t ph x)
  unfolding arbitrate_of Spec.arbitrate
  arbitrate-Refines (Phase.disputed n a p d) x distinct same = elim (Option-cases x.outcome) [
    | inl missing ↦ ground arith
    | inr (o, given) ↦ rw same (
        ground (
          arith,
          set_final_lem (disputed_course n a p d) State.disputed o (some x.evidence_hash) distinct,
          held-conclude t (disputed_course n a p d) o (some x.evidence_hash),
        ))
  ]
  arbitrate-Refines _ x distinct same = ground arith

  -- On the object of any phase with two distinct participants, `voidUnproposed` does what its
  -- specification says: an active challenge becomes void without evidence, or the call rejects
  -- with the code of the first condition that fails and changes nothing.
  pub void_unproposed-Refines :
      (ph : Phase) (now : ℕ)
      → IsDistinct t ph
      → void_unproposed_of (concretize t ph) id now m
        ≡ settled m id t ph (Spec.void_unproposed t ph now)
  unfolding void_unproposed_of Spec.void_unproposed
  void_unproposed-Refines (Phase.active n a) now distinct =
      ground (arith, set_final_lem (silent_course n a) State.active for_void none distinct)
  void_unproposed-Refines _ now distinct = ground arith

  -- On the object of any phase with two distinct participants, `voidUnarbitrated` does what its
  -- specification says: a disputed challenge becomes void without evidence, or the call rejects
  -- with the code of the first condition that fails and changes nothing.
  pub void_unarbitrated-Refines :
      (ph : Phase) (now : ℕ)
      → IsDistinct t ph
      → void_unarbitrated_of (concretize t ph) id now m
        ≡ settled m id t ph (Spec.void_unarbitrated t ph now)
  unfolding void_unarbitrated_of Spec.void_unarbitrated
  void_unarbitrated-Refines (Phase.disputed n a p d) now distinct =
      ground (arith, set_final_lem (disputed_course n a p d) State.disputed for_void none distinct)
  void_unarbitrated-Refines _ now distinct = ground arith
