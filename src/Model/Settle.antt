-- ===== src/Model/Settle.antt =====
-- The effect on the model of an abstract step of one challenge.
use challenge_escrow_protoco.Prelude.{
  ℕ, ◌==◌, Bool, true, false, if◌then◌else◌, ◌+◌, ◌-◌, String, insert, List, [], ◌∷◌,
}
use challenge_escrow_protoco.Model.Doubles.{double}
use challenge_escrow_protoco.Model.Types.{Model}
use challenge_escrow_protoco.Model.Exec.{Result, ok, rejected, crashed}
use challenge_escrow_protoco.Model.Phase.{Terms, Phase, held, concretize}

-- An unaccepted challenge is accepted.
abbrev pub joins : Phase → Phase → Bool
joins (Phase.opened n) (Phase.active k a) = true
joins ph next = false

-- The liability after a step: an acceptance adds a stake, a payment takes what is held no more, and
-- the sum or the difference is one of JavaScript's numbers.
abbrev pub liability_after : ℕ → Terms → Phase → Phase → ℕ
liability_after total t ph next =
    if joins ph next
    then double (total + t.stake)
    else if held t next == held t ph
    then total
    else double (total - (held t ph - held t next))

-- A step stores the object of the next phase; a refusal changes nothing.
abbrev pub settled : Model → String → Terms → Phase → Result Phase → Result (Unit {0}) × Model
settled m id t ph (ok next) = (
  ok tt,
  record m {
    challenges = insert id (concretize t next) m.challenges;
    total_outstanding_liability = liability_after m.total_outstanding_liability t ph next;
  },
)
settled m id t ph (rejected c) = (rejected c, m)
settled m id t ph (crashed x) = (crashed x, m)

abbrev pub roles : Model → List String
roles m = m.resolver ∷ m.arbiter ∷ m.pauser ∷ []
