-- ===== src/Projector/Payouts.antt =====
-- tools/client/projector.ts: the handlers of payouts. The id of an entitlement is computed by
-- `computeEntitlementId` of tools/client/keccak.ts, which is an argument here: on the 32 bytes of a
-- decoded challenge id and the 20 of a wallet it returns a text.
use challenge_escrow_protoco.Prelude.{
  ◌*◌, ◌==◌, String, Bool, true, false, not, ◌&&◌, ◌||◌, ◌∷◌, includes, holds_text, str_eq,
  if◌then◌else◌,
}
use challenge_escrow_protoco.Model.Types.{State, cancelled, expired, resolved_a, resolved_b, void}
use challenge_escrow_protoco.Observer.Hex.{lower}
use challenge_escrow_protoco.Events.Types.{
  EventSide, on_a, on_b, WinningsClaimed, PrincipalRefunded,
}
use challenge_escrow_protoco.Projector.Types.{
  invalid_transition, duplicate_payout, MutableChallenge, Verdict,
}
use challenge_escrow_protoco.Projector.Shared.{state_index, is_state, anomalous, accords}
use challenge_escrow_protoco.Projector.Resolving.{expected_winner}

-- The end of the handler: the amount, the recipient, and that neither the id nor the wallet is paid twice.
unfoldable pub pay : MutableChallenge → String → String → Bool → Verdict
pay c entitlement_id wallet is_due =
    if not is_due
    then anomalous invalid_transition c
    else if includes c.payout_ids (lower entitlement_id) || includes c.payout_wallets (lower wallet)
    then anomalous duplicate_payout c
    else accords (record c {
      payout_ids = lower entitlement_id ∷ c.payout_ids;
      payout_wallets = lower wallet ∷ c.payout_wallets;
    })

abbrev pub side_won : EventSide → State → Bool
side_won on_a resolved_a = true
side_won on_b resolved_b = true
side_won _ _ = false

-- The winner's wallet and the whole pot.
unfoldable pub claim_due : MutableChallenge → WinningsClaimed → Bool
claim_due c e =
    e.amount == c.created_event.stake_amount * 2
    && holds_text e.wallet (expected_winner c (side_won c.created_event.challenger_side c.state))

-- A participant's wallet and its stake.
unfoldable pub refund_due : MutableChallenge → PrincipalRefunded → Bool
unfolding is_state
refund_due c e =
    e.amount == c.created_event.stake_amount
    && (str_eq e.wallet c.created_event.challenger_wallet
        || (is_state c.state void && holds_text e.wallet c.accepting_wallet))

module _ (compute_entitlement_id : String → String → String) where
  -- `WinningsClaimed`
  unfoldable pub on_claimed : MutableChallenge → WinningsClaimed → Verdict
  unfolding is_state pay claim_due
  on_claimed c e =
      if not (str_eq (lower e.entitlement_id) (compute_entitlement_id e.challenge_id e.wallet))
        || not (is_state c.state resolved_a || is_state c.state resolved_b)
      then anomalous invalid_transition c
      else pay c e.entitlement_id e.wallet (claim_due c e)

  -- `PrincipalRefunded`
  unfoldable pub on_refunded : MutableChallenge → PrincipalRefunded → Verdict
  unfolding is_state state_index pay refund_due
  on_refunded c e =
      if not (str_eq (lower e.entitlement_id) (compute_entitlement_id e.challenge_id e.wallet))
        || not (
            (is_state c.state cancelled || (is_state c.state expired || is_state c.state void))
            && e.origin_state == state_index c.state)
      then anomalous invalid_transition c
      else pay c e.entitlement_id e.wallet (refund_due c e)
