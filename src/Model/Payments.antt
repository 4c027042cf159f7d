-- ===== src/Model/Payments.antt =====
-- Where the tokens are: each challenge accounts for its deposits, and a terminal challenge is emptied
-- by the actions of those who are entitled.
use challenge_escrow_protoco.Prelude.{
  ◌+◌, ◌*◌, ◌≤◌, String, ◌≡◌, true, false, Option, some, none, List, lookup, arith, subst, sym,
  AllEntries-lookup, if◌then◌else◌,
}
use challenge_escrow_protoco.Model.Types.{Final, Challenge, Model, Action}
use challenge_escrow_protoco.Model.Shared.{challenger_wins, is_resolved}
use challenge_escrow_protoco.Model.Phase.{Terms, Phase, a_won, b_won, concretize}
use challenge_escrow_protoco.Model.Sound.{IsSound}
use challenge_escrow_protoco.Model.Invariant.{IsEntry, HasEntries}
use challenge_escrow_protoco.Model.Machine.{new, run}
use challenge_escrow_protoco.Model.Replies.{run-HasEntries, new-IsValid}
use challenge_escrow_protoco.Model.Exit.{is_terminal}

-- What a decided challenge owes: twice the stake to the winner and nothing to the loser.
abbrev pub PaysWinner : Challenge → Option Final → Type 0
PaysWinner c none = ⊥
PaysWinner c (some f) =
    let wins = challenger_wins c.challenger_side f.outcome in
    (c.outstanding + (if wins then c.paid.challenger else c.paid.acceptor) ≡ c.stake * 2)
    × ((if wins then c.paid.acceptor else c.paid.challenger) ≡ 0)

-- The accounts of one challenge.
pub record IsAccounted (c : Challenge) : Type 0 where
  pub conserved : c.outstanding + c.paid.challenger + c.paid.acceptor ≡ c.deposited
  pub bounded : c.deposited ≤ c.stake * 2
  pub unpaid : is_terminal c.state ≡ false → c.outstanding ≡ c.deposited
  pub shares :
      is_resolved c.state ≡ false → (c.paid.challenger ≤ c.stake) × (c.paid.acceptor ≤ c.stake)
  pub winner : is_resolved c.state ≡ true → PaysWinner c c.final

concretize-IsAccounted : (t : Terms) (ph : Phase) → IsSound t ph → IsAccounted (concretize t ph)
concretize-IsAccounted t (Phase.resolved k a_won e paid) h = ground arith
concretize-IsAccounted t (Phase.resolved k b_won e paid) h = ground arith
concretize-IsAccounted t (Phase.void k e paid_c paid_a) h = ground arith
concretize-IsAccounted t _ h = ground arith

stored-IsAccounted :
    (m : Model) (id : String) (c : Challenge)
    → HasEntries m
    → lookup id m.challenges ≡ some c
    → IsAccounted c
stored-IsAccounted m id c v found =
    let e : IsEntry id c = AllEntries-lookup IsEntry id {v = c} m.challenges v found in
    subst IsAccounted (sym e.object) (concretize-IsAccounted e.terms e.phase e.sound)

-- After any actions on a new model, every stored challenge accounts for its deposits: what is
-- outstanding and what is paid comes to what was deposited, at most twice the stake; before a
-- terminal state nothing is paid; without a winner no one gets more than one stake; with a winner,
-- the winner's payment and what is outstanding come to twice the stake, and the loser gets nothing.
pub run-IsAccounted :
    (resolver arbiter pauser : String) (actions : List Action) (id : String) (c : Challenge)
    → lookup id (run actions (new resolver arbiter pauser)).challenges ≡ some c
    → IsAccounted c
run-IsAccounted resolver arbiter pauser actions id c found =
    let start = new resolver arbiter pauser in
    stored-IsAccounted (run actions start) id c
      (run-HasEntries actions start (new-IsValid resolver arbiter pauser).entries) found
