-- ===== src/Model/Refine/Payout.antt =====
-- `claim` and `refund` against the specification.
use challenge_escrow_protoco.Prelude.{
  ◌⊎◌, inl, ◌≤◌, ◌<◌, String, ◌≡◌, false, true, str_eq_comm, eq_iff, arith,
}
use challenge_escrow_protoco.Model.Types.{Code, Model}
use challenge_escrow_protoco.Model.Exec.{Result, rejected}
use challenge_escrow_protoco.Model.Payout.{claim_of, refund_of}
use challenge_escrow_protoco.Model.Phase.{Terms, Phase, held, concretize, IsDistinct}
use challenge_escrow_protoco.Model.Spec
use challenge_escrow_protoco.Model.Settle.{settled}

module _ (m : Model) (id : String) (t : Terms) (staked : 0 < t.stake) where
  -- On the object of any phase with a positive stake and two distinct participants, whose tokens
  -- the liability covers, `claim` does what its specification says: the winner gets twice the
  -- stake once, out of the challenge and of the liability, or the call rejects with the same code
  -- and changes nothing.
  pub claim-Refines :
      (ph : Phase) (caller : String)
      → IsDistinct t ph
      → held t ph ≤ m.total_outstanding_liability
      → claim_of (concretize t ph) id caller m ≡ settled m id t ph (Spec.claim t ph caller)
  unfolding claim_of Spec.claim
  claim-Refines (Phase.resolved k v e true) caller distinct solvent = ground (
    arith,
    eq_iff caller t.challenger,
    eq_iff caller k.acceptor,
    str_eq_comm caller t.challenger,
    str_eq_comm caller k.acceptor,
  )
  claim-Refines (Phase.resolved k v e false) caller distinct solvent = ground (
    arith,
    eq_iff caller t.challenger,
    eq_iff caller k.acceptor,
    str_eq_comm caller t.challenger,
    str_eq_comm caller k.acceptor,
  )
  claim-Refines _ caller distinct solvent = ground arith

  -- On the object of any phase with a positive stake and two distinct participants, whose tokens
  -- the liability covers, `refund` does what its specification says: a wallet that is entitled
  -- gets one stake once, out of the challenge and of the liability, or the call rejects with the
  -- same code and changes nothing.
  pub refund-Refines :
      (ph : Phase) (caller : String)
      → IsDistinct t ph
      → held t ph ≤ m.total_outstanding_liability
      → refund_of (concretize t ph) id caller m ≡ settled m id t ph (Spec.refund t ph caller)
  unfolding refund_of Spec.refund
  refund-Refines (Phase.cancelled n paid) caller distinct solvent =
      ground (arith, eq_iff caller t.challenger, str_eq_comm caller t.challenger)
  refund-Refines (Phase.expired n paid) caller distinct solvent =
      ground (arith, eq_iff caller t.challenger, str_eq_comm caller t.challenger)
  refund-Refines (Phase.void k e paid_c paid_a) caller distinct solvent = ground (
    arith,
    eq_iff caller t.challenger,
    eq_iff caller k.acceptor,
    str_eq_comm caller t.challenger,
    str_eq_comm caller k.acceptor,
  )
  refund-Refines _ caller distinct solvent = ground arith

  -- Whatever the liability is, a payout does what its specification says, or rejects for the liability.
  abbrev pub Obeys : Result (Unit {0}) × Model → Result (Unit {0}) × Model → Type 0
  Obeys run expected = (run ≡ expected) ⊎ (run ≡ (rejected Code.liability_accounting_mismatch, m))

  pub claim-cases :
      (ph : Phase) (caller : String)
      → IsDistinct t ph
      → Obeys (claim_of (concretize t ph) id caller m) (settled m id t ph (Spec.claim t ph caller))
  unfolding claim_of Spec.claim
  claim-cases (Phase.resolved k v e true) caller distinct = ground (
    arith,
    eq_iff caller t.challenger,
    eq_iff caller k.acceptor,
    str_eq_comm caller t.challenger,
    str_eq_comm caller k.acceptor,
  )
  claim-cases (Phase.resolved k v e false) caller distinct = ground (
    arith,
    eq_iff caller t.challenger,
    eq_iff caller k.acceptor,
    str_eq_comm caller t.challenger,
    str_eq_comm caller k.acceptor,
  )
  claim-cases _ caller distinct = inl (ground arith)

  pub refund-cases :
      (ph : Phase) (caller : String)
      → IsDistinct t ph
      → Obeys
          (refund_of (concretize t ph) id caller m)
          (settled m id t ph (Spec.refund t ph caller))
  unfolding refund_of Spec.refund
  refund-cases (Phase.cancelled n paid) caller distinct =
      ground (arith, eq_iff caller t.challenger, str_eq_comm caller t.challenger)
  refund-cases (Phase.expired n paid) caller distinct =
      ground (arith, eq_iff caller t.challenger, str_eq_comm caller t.challenger)
  refund-cases (Phase.void k e paid_c paid_a) caller distinct = ground (
    arith,
    eq_iff caller t.challenger,
    eq_iff caller k.acceptor,
    str_eq_comm caller t.challenger,
    str_eq_comm caller k.acceptor,
  )
  refund-cases _ caller distinct = inl (ground arith)
