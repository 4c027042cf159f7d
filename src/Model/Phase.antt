-- ===== src/Model/Phase.antt =====
-- tools/model/challenge-model.mjs, seen abstractly: a challenge is its terms and the phase of its
-- life. Every counter and entitlement of the detailed object is a function of these two.
use challenge_escrow_protoco.Prelude.{
  ℕ, ◌+◌, ◌*◌, String, ◌≡◌, str_eq, Bool, false, Option, none, some, [], ◌∷◌, if◌then◌else◌,
}
use challenge_escrow_protoco.Model.Types.{
  State, Outcome, for_a, for_b, for_void, Side, Entitlement, Proposal, Dispute, Schedule, Challenge,
}
use challenge_escrow_protoco.Model.Shared.{challenger_wins}

-- What is fixed when the challenge is created.
pub record Terms : Type 0 where
  pub id : String
  pub challenger : String
  pub challenger_side : Side
  pub stake : ℕ
  pub schedule : Schedule

-- The outcomes that have a winner.
pub data Verdict : Type 0 where
  a_won b_won : Verdict

abbrev pub outcome_of : Verdict → Outcome
outcome_of a_won = for_a
outcome_of b_won = for_b

-- What a decided challenge remembers of its course.
pub record Course : Type 0 where
  pub nonce : ℕ
  pub acceptor : String
  pub proposal : Option Proposal
  pub dispute : Option Dispute

-- The flags say whether the challenger, the winner or the acceptor has been paid.
pub data Phase : Type 0 where
  opened : ℕ → Phase
  active : ℕ → String → Phase
  proposed : ℕ → String → Proposal → Phase
  disputed : ℕ → String → Proposal → Dispute → Phase
  cancelled expired : ℕ → Bool → Phase
  resolved : Course → Verdict → Option String → Bool → Phase
  void : Course → Option String → Bool → Bool → Phase

-- An amount owed to a wallet, and the parts of it that are paid and that are left.
abbrev pub share : ℕ → Bool → Entitlement
share x paid =
    if paid then record { claimable = 0; paid = x } else record { claimable = x; paid = 0 }

abbrev pub taken : ℕ → Bool → ℕ
taken x paid = if paid then x else 0

abbrev pub left : ℕ → Bool → ℕ
left x paid = if paid then 0 else x

abbrev pub nothing : Entitlement
nothing = record { claimable = 0; paid = 0 }

abbrev pub won_by_challenger : Terms → Verdict → Bool
won_by_challenger t v = challenger_wins t.challenger_side (outcome_of v)

-- The tokens that the contract holds for a challenge, and those that it was given.
abbrev pub held : Terms → Phase → ℕ
held t (Phase.opened n) = t.stake
held t (Phase.active n a) = t.stake + t.stake
held t (Phase.proposed n a p) = t.stake + t.stake
held t (Phase.disputed n a p d) = t.stake + t.stake
held t (Phase.cancelled n paid) = left t.stake paid
held t (Phase.expired n paid) = left t.stake paid
held t (Phase.resolved k v e paid) = left (t.stake * 2) paid
held t (Phase.void k e paid_c paid_a) = left t.stake paid_c + left t.stake paid_a

-- An object before any payment.
abbrev pub unpaid : Terms → ℕ → Option String → State → ℕ → Challenge
unpaid t n acceptor state deposited = record {
  id = t.id;
  challenger = t.challenger;
  acceptor = acceptor;
  challenger_side = t.challenger_side;
  stake = t.stake;
  state = state;
  acceptance_nonce = n;
  deposited = deposited;
  outstanding = deposited;
  paid = record { challenger = 0; acceptor = 0 };
  schedule = t.schedule;
  proposal = none;
  dispute = none;
  final = none;
  entitlements = (t.challenger, nothing) ∷ [];
}

abbrev pub accepted : Terms → ℕ → String → State → Challenge
accepted t n a state =
    let c = unpaid t n (some a) state (t.stake + t.stake) in
    record c { entitlements = (t.challenger, nothing) ∷ (a, nothing) ∷ [] }

-- A refund of the only stake.
abbrev pub returned : Terms → ℕ → State → Bool → Challenge
returned t n state paid =
    let c = unpaid t n none state t.stake in
    record c {
      outstanding = left t.stake paid;
      paid = record { challenger = taken t.stake paid; acceptor = 0 };
      entitlements = (t.challenger, share t.stake paid) ∷ [];
    }

abbrev pub decided : Terms → Course → State → Outcome → Option String → Challenge
decided t k state outcome evidence =
    let c = accepted t k.nonce k.acceptor state in
    record c {
      proposal = k.proposal;
      dispute = k.dispute;
      final = some (record { outcome = outcome; evidence_hash = evidence });
    }

abbrev pub state_of : Verdict → State
state_of a_won = State.resolved_a
state_of b_won = State.resolved_b

-- The detailed object of a phase.
abbrev pub concretize : Terms → Phase → Challenge
concretize t (Phase.opened n) = unpaid t n none State.opened t.stake
concretize t (Phase.active n a) = accepted t n a State.active
concretize t (Phase.proposed n a p) =
    let c = accepted t n a State.proposed in record c { proposal = some p }
concretize t (Phase.disputed n a p d) =
    let c = accepted t n a State.disputed in record c { proposal = some p; dispute = some d }
concretize t (Phase.cancelled n paid) = returned t n State.cancelled paid
concretize t (Phase.expired n paid) = returned t n State.expired paid
concretize t (Phase.resolved k v e paid) =
    let c = decided t k (state_of v) (outcome_of v) e in
    let w = won_by_challenger t v in
    record c {
      outstanding = left (t.stake * 2) paid;
      paid = record {
        challenger = if w then taken (t.stake * 2) paid else 0;
        acceptor = if w then 0 else taken (t.stake * 2) paid;
      };
      entitlements =
          (t.challenger, if w then share (t.stake * 2) paid else nothing)
          ∷ (k.acceptor, if w then nothing else share (t.stake * 2) paid)
          ∷ [];
    }
concretize t (Phase.void k e paid_c paid_a) =
    let c = decided t k State.void for_void e in
    record c {
      outstanding = left t.stake paid_c + left t.stake paid_a;
      paid = record { challenger = taken t.stake paid_c; acceptor = taken t.stake paid_a };
      entitlements = (t.challenger, share t.stake paid_c) ∷ (k.acceptor, share t.stake paid_a) ∷ [];
    }

-- The two participants of an accepted challenge differ.
abbrev pub IsDistinct : Terms → Phase → Type 0
IsDistinct t (Phase.active n a) = str_eq t.challenger a ≡ false
IsDistinct t (Phase.proposed n a p) = str_eq t.challenger a ≡ false
IsDistinct t (Phase.disputed n a p d) = str_eq t.challenger a ≡ false
IsDistinct t (Phase.resolved k v e paid) = str_eq t.challenger k.acceptor ≡ false
IsDistinct t (Phase.void k e paid_c paid_a) = str_eq t.challenger k.acceptor ≡ false
IsDistinct t _ = Unit
