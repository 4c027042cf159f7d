-- ===== src/Model/Payout.antt =====
-- tools/model/challenge-model.mjs: `claim`, `refund` and the consumption of an entitlement.
use challenge_escrow_protoco.Prelude.{
  ℕ, ◌+◌, ◌-◌, ◌*◌, String, not, ◌&&◌, ◌||◌, lookup, insert, holds_text, str_eq, ltb, ◌==◌,
  if◌then◌else◌,
}
use challenge_escrow_protoco.Model.Doubles.{double}
use challenge_escrow_protoco.Model.Types.{cancelled, expired, void, Code, Challenge}
use challenge_escrow_protoco.Model.Exec.{Exec, ◌>>=◌, ◌>>◌, reject_if, or_reject, read, this}
use challenge_escrow_protoco.Model.Shared.{
  state_is, is_resolved, winner, find_challenge, write, set_liability,
}

-- `#consume`. The rejections before the subtractions rule out a larger amount. Those on the challenge
-- are of safe integers; the one of the liability is rounded, as its sums are.
unfoldable pub consume : Challenge → String → String → ℕ → Exec (Unit {0})
consume c id wallet amount = do
  self ← this
  entitlement ← or_reject (lookup wallet c.entitlements) Code.invalid_entitlement
  reject_if (not (entitlement.claimable == amount) || not (entitlement.paid == 0))
      Code.invalid_entitlement
  reject_if (ltb c.outstanding amount || ltb self.total_outstanding_liability amount)
      Code.liability_accounting_mismatch
  write id (record c {
    entitlements = insert wallet (record { claimable = 0; paid = amount }) c.entitlements;
    paid = record {
      challenger =
          if str_eq wallet c.challenger then c.paid.challenger + amount else c.paid.challenger;
      acceptor = if holds_text wallet c.acceptor then c.paid.acceptor + amount else c.paid.acceptor;
    };
    outstanding = c.outstanding - amount;
  })
  set_liability (λ n. double (n - amount))

unfoldable pub claim_of : Challenge → String → String → Exec (Unit {0})
unfolding consume
claim_of c id caller = do
  reject_if (not (is_resolved c.state)) Code.challenge_not_resolved
  f ← read c.final
  reject_if (not (holds_text caller (winner c f.outcome))) Code.caller_not_winning_wallet
  consume c id caller (c.stake * 2)

unfoldable pub claim : String → String → Exec (Unit {0})
claim id caller = do c ← find_challenge id; claim_of c id caller

unfoldable pub refund_of : Challenge → String → String → Exec (Unit {0})
unfolding consume
refund_of c id caller = do
  reject_if (not (state_is c.state cancelled || state_is c.state expired || state_is c.state void))
      Code.challenge_not_refundable
  reject_if
      (not (str_eq caller c.challenger || (state_is c.state void && holds_text caller c.acceptor)))
      Code.caller_not_refund_recipient
  consume c id caller c.stake

unfoldable pub refund : String → String → Exec (Unit {0})
refund id caller = do c ← find_challenge id; refund_of c id caller
