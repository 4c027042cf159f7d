-- ===== src/Projector/Receiving.antt =====
-- tools/client/projector.ts: the amounts of the payouts that a challenge records.
use challenge_escrow_protoco.Prelude.{
  ℕ, ◌*◌, ◌==◌, String, ◌≡◌, refl, Bool, true, false, not, ◌&&◌, ◌||◌, Option, ◌∷◌, includes, arith,
  str_eq,
}
use challenge_escrow_protoco.Model.Types.{State, void, resolved_a, resolved_b}
use challenge_escrow_protoco.Observer.Hex.{lower}
use challenge_escrow_protoco.Events.Types
use challenge_escrow_protoco.Events.Types.{
  EventKind, ReleaseDeclared, ProtocolEvent, nonce_advanced, accepted, cancelled, expired, resolved,
  voided, claimed, refunded, kind_of,
}
use challenge_escrow_protoco.Projector.Types.{MutableChallenge, Verdict}
use challenge_escrow_protoco.Projector.Shared.{state_index, is_state, follow}
use challenge_escrow_protoco.Projector.Opening.{
  on_nonce_advanced, on_accepted, on_cancelled, on_expired,
}
use challenge_escrow_protoco.Projector.Deciding.{on_proposed, on_disputed}
use challenge_escrow_protoco.Projector.Resolving.{on_resolved, on_voided}
use challenge_escrow_protoco.Projector.Payouts.{pay, on_claimed, on_refunded, claim_due, refund_due}
use challenge_escrow_protoco.Projector.Events.{verdict}
use challenge_escrow_protoco.Projector.Diagram.{by_test}
use challenge_escrow_protoco.Projector.Paying.{each_in}

-- The amount of a payout; another event pays nothing.
unfoldable pub amount_of : ProtocolEvent → ℕ
amount_of (claimed e) = e.amount
amount_of (refunded e) = e.amount
amount_of event = 0

-- What an event makes of a challenge: it records no payout, or one of its own amount, which is the
-- amount of each payout in the state.
pub data Records (event : ProtocolEvent) (c d : MutableChallenge) : Type 0 where
  nothing : d.payout_ids ≡ c.payout_ids → Records event c d
  payout :
      (id : String)
      → d.payout_ids ≡ id ∷ c.payout_ids
      → d.state ≡ c.state
      → d.created_event ≡ c.created_event
      → amount_of event ≡ each_in c.state c.created_event.stake_amount
      → Records event c d

pub record Receives (event : ProtocolEvent) (c : MutableChallenge) (v : Verdict) : Type 0 where
  pub at : Records event c v.challenge

quiet :
    (event : ProtocolEvent) (c : MutableChallenge) (v : Verdict)
    → v.challenge.payout_ids ≡ c.payout_ids
    → Receives event c v
quiet event c v e = record { at = nothing e }

pay-Receives :
    (event : ProtocolEvent) (c : MutableChallenge) (entitlement wallet : String) (due : Bool)
    → (due ≡ true → amount_of event ≡ each_in c.state c.created_event.stake_amount)
    → Receives event c (pay c entitlement wallet due)
unfolding pay
pay-Receives event c entitlement wallet due exact =
    by_test (Receives event c) (not due) (λ _. quiet event c _ refl)
      (λ owed.
        by_test (Receives event c)
          (includes c.payout_ids (lower entitlement) || includes c.payout_wallets (lower wallet))
          (λ _. quiet event c _ refl)
          (λ _. record { at = payout (lower entitlement) refl refl refl (exact (ground arith)) }))

claimed_exact :
    (s : State) (amount stake : ℕ)
    → (is_state s resolved_a || is_state s resolved_b) ≡ true
    → (amount == stake * 2) ≡ true
    → amount ≡ each_in s stake
unfolding is_state state_index
claimed_exact s amount stake h e = ground arith

refunded_exact :
    (s : State) (amount stake : ℕ)
    → (is_state s State.cancelled || (is_state s State.expired || is_state s void)) ≡ true
    → (amount == stake) ≡ true
    → amount ≡ each_in s stake
unfolding is_state state_index
refunded_exact s amount stake h e = ground arith

follow-ids :
    (kind : EventKind) (c : MutableChallenge) → (follow kind c).challenge.payout_ids ≡ c.payout_ids
unfolding follow
follow-ids kind c = ground arith

split_and : (a b : Bool) → (a && b) ≡ true → (a ≡ true) × (b ≡ true)
split_and true b h = (refl, h)
split_and false b h = cc

neither : (a b : Bool) → (a || b) ≡ false → b ≡ false
neither true b h = cc
neither false b h = h

holds : (b : Bool) → not b ≡ false → b ≡ true
holds true h = refl
holds false h = cc

module _ (compute_entitlement_id : String → String → String) where
  pub verdict-Receives :
      (release : Option ReleaseDeclared) (event : ProtocolEvent) (c : MutableChallenge)
      → Receives event c (verdict compute_entitlement_id release event c)
  unfolding verdict on_claimed on_refunded claim_due refund_due amount_of on_nonce_advanced
      on_accepted on_cancelled on_expired on_proposed on_disputed on_resolved on_voided follow
  verdict-Receives release (nonce_advanced e) c = quiet _ c _ (ground arith)
  verdict-Receives release (accepted e) c = quiet _ c _ (ground arith)
  verdict-Receives release (cancelled e) c = quiet _ c _ (ground arith)
  verdict-Receives release (expired e) c = quiet _ c _ (ground arith)
  verdict-Receives release (Types.proposed e) c = quiet _ c _ (ground arith)
  verdict-Receives release (Types.disputed e) c = quiet _ c _ (ground arith)
  verdict-Receives release (resolved e) c = quiet _ c _ (ground arith)
  verdict-Receives release (voided e) c = quiet _ c _ (ground arith)
  verdict-Receives release (claimed e) c =
      by_test (Receives (claimed e) c)
        (not (str_eq (lower e.entitlement_id) (compute_entitlement_id e.challenge_id e.wallet))
          || not (is_state c.state resolved_a || is_state c.state resolved_b))
        (λ _. quiet _ c _ refl)
        (λ right. pay-Receives (claimed e) c e.entitlement_id e.wallet (claim_due c e) (λ due.
          claimed_exact c.state e.amount c.created_event.stake_amount (holds _ (neither _ _ right))
            (split_and _ _ due).0))
  verdict-Receives release (refunded e) c =
      by_test (Receives (refunded e) c)
        (not (str_eq (lower e.entitlement_id) (compute_entitlement_id e.challenge_id e.wallet))
          || not (
              (is_state c.state State.cancelled
                || (is_state c.state State.expired || is_state c.state void))
              && e.origin_state == state_index c.state))
        (λ _. quiet _ c _ refl)
        (λ right. pay-Receives (refunded e) c e.entitlement_id e.wallet (refund_due c e) (λ due.
          refunded_exact c.state e.amount c.created_event.stake_amount
            (split_and _ _ (holds _ (neither _ _ right))).0 (split_and _ _ due).0))
  verdict-Receives release event c = quiet _ c _ refl
