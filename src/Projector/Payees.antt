-- ===== src/Projector/Payees.antt =====
-- tools/client/projector.ts: the wallets that a state pays, and why the payout handlers pay no other.
use challenge_escrow_protoco.Prelude.{
  String, ◌≡◌, refl, Bool, true, false, ◌&&◌, ◌||◌, Option, none, some, List, [], ◌∷◌, includes,
  holds_text, str_eq, eq_iff, eq_refl, arith, inl, inr, Bool-cases,
}
use challenge_escrow_protoco.Model.Types.{State, cancelled, expired, resolved_a, resolved_b, void}
use challenge_escrow_protoco.Observer.Hex.{lower}
use challenge_escrow_protoco.Projector.Types.{MutableChallenge}
use challenge_escrow_protoco.Projector.Shared.{state_index, is_state, terminal}
use challenge_escrow_protoco.Projector.Resolving.{expected_winner}
use challenge_escrow_protoco.Projector.Payouts.{side_won}

abbrev pub lowered : Option String → List String
lowered none = []
lowered (some w) = lower w ∷ []

-- The wallets that a challenge pays in a state, as the set of payouts holds them.
abbrev pub due_to : MutableChallenge → State → List String
due_to c cancelled = lower c.created_event.challenger_wallet ∷ []
due_to c expired = lower c.created_event.challenger_wallet ∷ []
due_to c resolved_a =
    lowered (expected_winner c (side_won c.created_event.challenger_side resolved_a))
due_to c resolved_b =
    lowered (expected_winner c (side_won c.created_event.challenger_side resolved_b))
due_to c void = lower c.created_event.challenger_wallet ∷ lowered c.accepting_wallet
due_to c _ = []

-- The wallets that a challenge pays.
unfoldable pub payees : MutableChallenge → List String
payees c = due_to c c.state

includes-head :
    (v w : String) (ws : List String) → str_eq v w ≡ true → includes (lower w ∷ ws) (lower v) ≡ true
unfolding includes
includes-head v w ws e = rw ((eq_iff v w).0 e, eq_refl (lower w)) refl

includes-lowered :
    (w : String) (o : Option String) → holds_text w o ≡ true → includes (lowered o) (lower w) ≡ true
includes-lowered w none h = cc
includes-lowered w (some v) h = includes-head w v [] h

winner_due :
    (c : MutableChallenge) (w : String) (s : State)
    → (is_state s resolved_a || is_state s resolved_b) ≡ true
    → holds_text w (expected_winner c (side_won c.created_event.challenger_side s)) ≡ true
    → includes (due_to c s) (lower w) ≡ true
unfolding is_state state_index
winner_due c w resolved_a h k = includes-lowered w _ k
winner_due c w resolved_b h k = includes-lowered w _ k
winner_due c w _ h k = cc

-- The winner is among the wallets that a resolved challenge pays.
pub winner-payees :
    (c : MutableChallenge) (w : String)
    → (is_state c.state resolved_a || is_state c.state resolved_b) ≡ true
    → holds_text w (expected_winner c (side_won c.created_event.challenger_side c.state)) ≡ true
    → includes (payees c) (lower w) ≡ true
unfolding payees
winner-payees c w h k = winner_due c w c.state h k

includes-second :
    (a w : String) (ws : List String)
    → includes ws (lower w) ≡ true
    → includes (a ∷ ws) (lower w) ≡ true
unfolding includes
includes-second a w ws h = rw h (ground arith)

void_due :
    (c : MutableChallenge) (w : String)
    → (str_eq w c.created_event.challenger_wallet || holds_text w c.accepting_wallet) ≡ true
    → includes (due_to c void) (lower w) ≡ true
void_due c w h = elim (Bool-cases (str_eq w c.created_event.challenger_wallet)) [
  | inl e ↦ includes-head w _ _ e
  | inr e ↦ includes-second _ w _ (includes-lowered w c.accepting_wallet (rw e at h))
]

challenger_only : (b : Bool) → (b || false) ≡ true → b ≡ true
challenger_only true h = refl
challenger_only false h = cc

refund_due_to :
    (c : MutableChallenge) (w : String) (s : State)
    → (is_state s cancelled || (is_state s expired || is_state s void)) ≡ true
    → (str_eq w c.created_event.challenger_wallet
        || (is_state s void && holds_text w c.accepting_wallet))
      ≡ true
    → includes (due_to c s) (lower w) ≡ true
unfolding is_state state_index
refund_due_to c w cancelled h k = includes-head w _ [] (challenger_only _ k)
refund_due_to c w expired h k = includes-head w _ [] (challenger_only _ k)
refund_due_to c w void h k = void_due c w k
refund_due_to c w _ h k = cc

-- Who is refunded is among the wallets that a cancelled, expired or void challenge pays.
pub refunded-payees :
    (c : MutableChallenge) (w : String)
    → (is_state c.state cancelled || (is_state c.state expired || is_state c.state void)) ≡ true
    → (str_eq w c.created_event.challenger_wallet
        || (is_state c.state void && holds_text w c.accepting_wallet))
      ≡ true
    → includes (payees c) (lower w) ≡ true
unfolding payees
refunded-payees c w h k = refund_due_to c w c.state h k

-- Either test holds of terminal states alone.
pub winner-terminal :
    (s : State) → (is_state s resolved_a || is_state s resolved_b) ≡ true → terminal s ≡ true
unfolding is_state state_index terminal
winner-terminal resolved_a h = refl
winner-terminal resolved_b h = refl
winner-terminal _ h = cc

pub refunded-terminal :
    (s : State)
    → (is_state s cancelled || (is_state s expired || is_state s void)) ≡ true
    → terminal s ≡ true
unfolding is_state state_index terminal
refunded-terminal cancelled h = refl
refunded-terminal expired h = refl
refunded-terminal void h = refl
refunded-terminal _ h = cc
