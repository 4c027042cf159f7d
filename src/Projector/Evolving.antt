-- ===== src/Projector/Evolving.antt =====
-- tools/client/projector.ts: what one event does to a challenge that is known.
use challenge_escrow_protoco.Prelude.{
  ℕ, ◌==◌, String, ◌≡◌, refl, sym, subst, Bool, true, false, not, ◌&&◌, ◌||◌, ◌⊎◌, inl, inr, Option,
  Bool-cases, includes, if◌then◌else◌, str_eq,
}
use challenge_escrow_protoco.Model.Types.{
  State, proposed, disputed, active, void, opened, resolved_a, resolved_b,
}
use challenge_escrow_protoco.Observer.Hex.{lower}
use challenge_escrow_protoco.Events.Types.{
  EventKind, challenge_voided, ReleaseDeclared, ProtocolEvent, released, pause_changed, created,
  nonce_advanced, accepted, cancelled, expired, resolved, voided, claimed, refunded, kind_of,
  AcceptanceNonceAdvanced, ChallengeAccepted, ChallengeResolved, ChallengeVoided,
}
use challenge_escrow_protoco.Events.Types
use challenge_escrow_protoco.Projector.Types.{MutableChallenge, Verdict}
use challenge_escrow_protoco.Projector.Shared.{state_index, is_state, terminal, follow}
use challenge_escrow_protoco.Projector.Opening.{
  on_nonce_advanced, on_accepted, on_cancelled, on_expired, acceptance_mismatch,
}
use challenge_escrow_protoco.Projector.Deciding.{
  on_proposed, on_disputed, proposal_mismatch, dispute_mismatch,
}
use challenge_escrow_protoco.Projector.Resolving.{
  void_origin, on_resolved, on_voided, resolution_mismatch, void_mismatch,
}
use challenge_escrow_protoco.Projector.Payouts.{pay, on_claimed, on_refunded, claim_due, refund_due}
use challenge_escrow_protoco.Projector.Events.{verdict}
use challenge_escrow_protoco.Projector.Payees.{
  payees, winner-payees, winner-terminal, refunded-payees, refunded-terminal,
}
use challenge_escrow_protoco.Projector.Diagram.{
  Move, Pays, Evolves, same, by_test, is_state-eq, follow-Evolves,
}

-- What a verdict on a challenge makes of it.
pub record Grows (kind : EventKind) (c : MutableChallenge) (v : Verdict) : Type 0 where
  pub at : Evolves kind c v.challenge

unmoved : (kind : EventKind) (c : MutableChallenge) (v : Verdict) → v.challenge ≡ c → Grows kind c v
unmoved kind c v e = record { at = subst (Evolves kind c) (sym e) (same kind c) }

after :
    (kind : EventKind) (c d : MutableChallenge)
    → d.state ≡ c.state
    → d.created_event ≡ c.created_event
    → (terminal c.state ≡ true → d.accepting_wallet ≡ c.accepting_wallet)
    → d.payout_ids ≡ c.payout_ids
    → d.payout_wallets ≡ c.payout_wallets
    → d.event_count ≡ c.event_count
    → Grows kind c (follow kind d)
after kind c d es ec ea ei ew en = record { at = follow-Evolves kind c d es ec ea ei ew en }

opened_live : (s : State) → is_state s opened ≡ true → terminal s ≡ false
unfolding terminal
opened_live s e = rw (is_state-eq s opened e) refl

shown : (b : Bool) → not b ≡ false → b ≡ true
shown true h = refl
shown false h = cc

second_false : (a b : Bool) → (a || b) ≡ false → b ≡ false
second_false true b h = cc
second_false false b h = h

both_true : (a b : Bool) → (a && b) ≡ true → (a ≡ true) × (b ≡ true)
both_true true b h = (refl, h)
both_true false b h = cc

pay-Evolves :
    (kind : EventKind) (c : MutableChallenge) (entitlement wallet : String) (due : Bool)
    → terminal c.state ≡ true
    → (due ≡ true → includes (payees c) (lower wallet) ≡ true)
    → Grows kind c (pay c entitlement wallet due)
unfolding pay
pay-Evolves kind c entitlement wallet due end payee =
    by_test (Grows kind c) (not due) (λ _. unmoved kind c _ refl)
      (λ owed.
        by_test (Grows kind c)
          (includes c.payout_ids (lower entitlement) || includes c.payout_wallets (lower wallet))
          (λ _. unmoved kind c _ refl)
          (λ new. record {
            at = record {
              moves = inl refl;
              created_kept = refl;
              acceptor_kept = λ t. refl;
              pays =
                  Pays.paid (lower entitlement) (lower wallet) end refl (payee (shown _ owed))
                    (second_false _ _ new) refl refl;
              count_kept = refl;
            };
          }))

resolution_source :
    (path : ℕ) (s : State)
    → is_state s (if path == 0 then proposed else disputed) ≡ true
    → (s ≡ proposed) ⊎ (s ≡ disputed)
resolution_source path s h = elim (Bool-cases (path == 0)) [
  | inl e ↦ inl (is_state-eq s proposed (rw e at h))
  | inr e ↦ inr (is_state-eq s disputed (rw e at h))
]

on_resolved-Evolves :
    (release : Option ReleaseDeclared) (c : MutableChallenge) (e : ChallengeResolved)
    → Grows Types.challenge_resolved c (on_resolved release c e)
unfolding on_resolved
on_resolved-Evolves release c e =
    by_test (Grows _ c) (terminal c.state) (λ _. unmoved _ c _ refl)
      (λ _.
        by_test (Grows _ c)
          (not (is_state c.state (if e.resolution_path == 0 then proposed else disputed)))
          (λ _. unmoved _ c _ refl)
          (λ at.
            by_test (Grows _ c) (resolution_mismatch release c e) (λ _. unmoved _ c _ refl)
              (λ _. record {
                at = record {
                  moves = inr (
                      Move.resolve c.state e.final_outcome
                        (resolution_source e.resolution_path c.state (shown _ at)));
                  created_kept = refl;
                  acceptor_kept = λ t. refl;
                  pays = Pays.unpaid refl refl;
                  count_kept = refl;
                };
              })))

on_voided-Evolves :
    (release : Option ReleaseDeclared) (c : MutableChallenge) (e : ChallengeVoided)
    → Grows challenge_voided c (on_voided release c e)
unfolding on_voided
on_voided-Evolves release c e =
    by_test (Grows _ c) (terminal c.state) (λ _. unmoved _ c _ refl)
      (λ live.
        by_test (Grows _ c) (not (is_state c.state (void_origin e.void_path)))
          (λ _. unmoved _ c _ refl)
          (λ _.
            by_test (Grows _ c) (void_mismatch release c e) (λ _. unmoved _ c _ refl)
              (λ _. record {
                at = record {
                  moves = inr (Move.annul c.state live);
                  created_kept = refl;
                  acceptor_kept = λ t. refl;
                  pays = Pays.unpaid refl refl;
                  count_kept = refl;
                };
              })))

module _ (compute_entitlement_id : String → String → String) where
  pub verdict-Evolves :
      (release : Option ReleaseDeclared) (event : ProtocolEvent) (c : MutableChallenge)
      → Grows (kind_of event) c (verdict compute_entitlement_id release event c)
  unfolding verdict kind_of on_nonce_advanced on_accepted on_cancelled on_expired on_proposed
      on_disputed on_claimed on_refunded claim_due refund_due
  verdict-Evolves release (nonce_advanced e) c =
      by_test (Grows _ c)
        (not (is_state c.state opened)
          || (not (str_eq e.challenger_wallet c.created_event.challenger_wallet)
              || not (e.previous_nonce == c.acceptance_nonce)))
        (λ _. unmoved _ c _ refl)
        (λ _. record {
          at = record {
            moves = inl refl;
            created_kept = refl;
            acceptor_kept = λ t. refl;
            pays = Pays.unpaid refl refl;
            count_kept = refl;
          };
        })
  verdict-Evolves release (accepted e) c =
      by_test (Grows _ c) (is_state c.state opened)
        (λ first.
          by_test (Grows _ c) (acceptance_mismatch release c e) (λ _. unmoved _ c _ refl)
            (λ _. after _ c _ refl refl (λ t. cc (opened_live c.state first)) refl refl refl))
        (λ _. after _ c c refl refl (λ _. refl) refl refl refl)
  verdict-Evolves release (cancelled e) c =
      by_test (Grows _ c)
        (is_state c.state opened
          && (not (str_eq e.challenger_wallet c.created_event.challenger_wallet)
              || not (e.refund_amount == c.created_event.stake_amount)))
        (λ _. unmoved _ c _ refl) (λ _. after _ c c refl refl (λ _. refl) refl refl refl)
  verdict-Evolves release (expired e) c =
      by_test (Grows _ c)
        (is_state c.state opened
          && (not (str_eq e.challenger_wallet c.created_event.challenger_wallet)
              || not (e.refund_amount == c.created_event.stake_amount)))
        (λ _. unmoved _ c _ refl) (λ _. after _ c c refl refl (λ _. refl) refl refl refl)
  verdict-Evolves release (Types.proposed e) c =
      by_test (Grows _ c) (is_state c.state active)
        (λ _.
          by_test (Grows _ c) (proposal_mismatch release c.created_event e)
            (λ _. unmoved _ c _ refl) (λ _. after _ c _ refl refl (λ _. refl) refl refl refl))
        (λ _. after _ c c refl refl (λ _. refl) refl refl refl)
  verdict-Evolves release (Types.disputed e) c =
      by_test (Grows _ c) (is_state c.state proposed)
        (λ _.
          by_test (Grows _ c) (dispute_mismatch c e) (λ _. unmoved _ c _ refl)
            (λ _. after _ c _ refl refl (λ _. refl) refl refl refl))
        (λ _. after _ c c refl refl (λ _. refl) refl refl refl)
  verdict-Evolves release (resolved e) c = on_resolved-Evolves release c e
  verdict-Evolves release (voided e) c = on_voided-Evolves release c e
  verdict-Evolves release (claimed e) c =
      by_test (Grows _ c)
        (not (str_eq (lower e.entitlement_id) (compute_entitlement_id e.challenge_id e.wallet))
          || not (is_state c.state resolved_a || is_state c.state resolved_b))
        (λ _. unmoved _ c _ refl)
        (λ right.
          let state = shown _ (second_false _ _ right) in
          pay-Evolves _ c e.entitlement_id e.wallet (claim_due c e) (winner-terminal c.state state)
            (λ due. winner-payees c e.wallet state (both_true _ _ due).1))
  verdict-Evolves release (refunded e) c =
      by_test (Grows _ c)
        (not (str_eq (lower e.entitlement_id) (compute_entitlement_id e.challenge_id e.wallet))
          || not (
              (is_state c.state State.cancelled
                || (is_state c.state State.expired || is_state c.state void))
              && e.origin_state == state_index c.state))
        (λ _. unmoved _ c _ refl)
        (λ right.
          let state = (both_true _ _ (shown _ (second_false _ _ right))).0 in
          pay-Evolves _ c e.entitlement_id e.wallet (refund_due c e)
            (refunded-terminal c.state state)
            (λ due. refunded-payees c e.wallet state (both_true _ _ due).1))
  verdict-Evolves release event c = unmoved _ c _ refl
