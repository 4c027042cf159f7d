-- ===== src/Model/Pausing.antt =====
-- The pause stops new exposure alone.
use challenge_escrow_protoco.Prelude.{
  String, ℕ, ◌≡◌, refl, Bool, true, false, Option, none, some, lookup, Option-cases, inl, inr,
  arith,
}
use challenge_escrow_protoco.Model.Types.{
  Outcome, for_a, for_b, for_void, Code, Challenge, Model, Answer, Action,
}
use challenge_escrow_protoco.Model.Exec.{Exec, or_reject, ◌>>=◌}
use challenge_escrow_protoco.Model.Shared.{find_challenge}
use challenge_escrow_protoco.Model.Opening
use challenge_escrow_protoco.Model.Deciding
use challenge_escrow_protoco.Model.Payout
use challenge_escrow_protoco.Model.Machine.{dispatch}

abbrev pub set_paused : Bool → Model → Model
set_paused b m = record m { paused = b }

-- The pause changes nothing of what a handler does.
abbrev pub IgnoresPause : Exec (Unit {0}) → Type 0
IgnoresPause h =
    (b : Bool) (m : Model) → h (set_paused b m) ≡ (let (r, m') = h m in (r, set_paused b m'))

finding-IgnoresPause :
    (id : String) (body : Challenge → Exec (Unit {0}))
    → ((c : Challenge) → IgnoresPause (body c))
    → IgnoresPause (find_challenge id >>= body)
finding-IgnoresPause id body h b m = go (lookup id m.challenges)
  where
    go :
        (o : Option Challenge)
        → (or_reject o Code.challenge_not_found >>= body) (set_paused b m) ≡ (
            let (r, m') = (or_reject o Code.challenge_not_found >>= body) m in (r, set_paused b m'))
    go none = refl
    go (some c) = h c b m

module _ (c : Challenge) (id : String) where
  advance_nonce-IgnoresPause :
      (caller : String) (now : ℕ) → IgnoresPause (Opening.advance_nonce_of c id caller now)
  unfolding Opening.advance_nonce_of
  advance_nonce-IgnoresPause caller now b m = ground arith

  cancel-IgnoresPause :
      (caller : String) (now : ℕ) → IgnoresPause (Opening.cancel_of c id caller now)
  unfolding Opening.cancel_of
  cancel-IgnoresPause caller now b m = ground arith

  expire-IgnoresPause : (now : ℕ) → IgnoresPause (Opening.expire_of c id now)
  unfolding Opening.expire_of
  expire-IgnoresPause now b m = ground arith

  dispute-IgnoresPause : (x : Answer) → IgnoresPause (Deciding.dispute_of c x)
  unfolding Deciding.dispute_of
  dispute-IgnoresPause x b m = ground arith

  set_final-IgnoresPause :
      (o : Outcome) (e : Option String) → IgnoresPause (Deciding.set_final c id o e)
  unfolding Deciding.set_final
  set_final-IgnoresPause for_a e b m = ground arith
  set_final-IgnoresPause for_b e b m = ground arith
  set_final-IgnoresPause for_void e b m = ground arith

  finalize-IgnoresPause : (now : ℕ) → IgnoresPause (Deciding.finalize_of c id now)
  unfolding Deciding.finalize_of
  finalize-IgnoresPause now b m = elim (Option-cases c.proposal) [
    | inl missing ↦ ground arith
    | inr (p, given) ↦ ground (arith, set_final-IgnoresPause p.outcome (some p.evidence_hash) b m)
  ]

  void_unproposed-IgnoresPause : (now : ℕ) → IgnoresPause (Deciding.void_unproposed_of c id now)
  unfolding Deciding.void_unproposed_of
  void_unproposed-IgnoresPause now b m = ground (arith, set_final-IgnoresPause for_void none b m)

  void_unarbitrated-IgnoresPause : (now : ℕ) → IgnoresPause (Deciding.void_unarbitrated_of c id now)
  unfolding Deciding.void_unarbitrated_of
  void_unarbitrated-IgnoresPause now b m = ground (arith, set_final-IgnoresPause for_void none b m)

  consume-IgnoresPause :
      (wallet : String) (amount : ℕ) → IgnoresPause (Payout.consume c id wallet amount)
  unfolding Payout.consume
  consume-IgnoresPause wallet amount b m = ground arith

arbitrate-IgnoresPause : (c : Challenge) (x : Answer) → IgnoresPause (Deciding.arbitrate_of c x)
unfolding Deciding.arbitrate_of
arbitrate-IgnoresPause c x b m = ground (
  arith,
  set_final-IgnoresPause c x.id for_a (some x.evidence_hash) b m,
  set_final-IgnoresPause c x.id for_b (some x.evidence_hash) b m,
  set_final-IgnoresPause c x.id for_void (some x.evidence_hash) b m,
)

claim-IgnoresPause :
    (c : Challenge) (id caller : String) → IgnoresPause (Payout.claim_of c id caller)
unfolding Payout.claim_of
claim-IgnoresPause c id caller b m = ground arith

refund-IgnoresPause :
    (c : Challenge) (id caller : String) → IgnoresPause (Payout.refund_of c id caller)
unfolding Payout.refund_of
refund-IgnoresPause c id caller b m = ground arith

-- The actions that the pause does not stop: all but `create`, `accept` and `propose`, and but `pause`
-- itself.
abbrev pub ignores_pause : Action → Bool
ignores_pause (Action.pause caller flag) = false
ignores_pause (Action.create a) = false
ignores_pause (Action.accept a) = false
ignores_pause (Action.propose x) = false
ignores_pause _ = true

-- Cancellations, disputes, decisions, timeouts, claims, refunds and nonce advances do the same, with
-- the same result, whatever the pause is.
pub dispatch-IgnoresPause : (a : Action) → ignores_pause a ≡ true → IgnoresPause (dispatch a)
unfolding dispatch Opening.advance_nonce Opening.cancel Opening.expire Deciding.dispute
    Deciding.finalize Deciding.arbitrate Deciding.void_unproposed Deciding.void_unarbitrated
    Payout.claim Payout.refund
dispatch-IgnoresPause Action.warp e = λ b m. refl
dispatch-IgnoresPause Action.other e = λ b m. refl
dispatch-IgnoresPause (Action.pause caller flag) e = λ b m. cc
dispatch-IgnoresPause (Action.create a) e = λ b m. cc
dispatch-IgnoresPause (Action.accept a) e = λ b m. cc
dispatch-IgnoresPause (Action.propose x) e = λ b m. cc
dispatch-IgnoresPause (Action.advance_nonce id caller now) e =
    finding-IgnoresPause id (λ c. Opening.advance_nonce_of c id caller now)
      (λ c. advance_nonce-IgnoresPause c id caller now)
dispatch-IgnoresPause (Action.cancel id caller now) e =
    finding-IgnoresPause id (λ c. Opening.cancel_of c id caller now)
      (λ c. cancel-IgnoresPause c id caller now)
dispatch-IgnoresPause (Action.expire id now) e =
    finding-IgnoresPause id (λ c. Opening.expire_of c id now) (λ c. expire-IgnoresPause c id now)
dispatch-IgnoresPause (Action.dispute x) e =
    finding-IgnoresPause x.id (λ c. Deciding.dispute_of c x) (λ c. dispute-IgnoresPause c x.id x)
dispatch-IgnoresPause (Action.finalize id now) e =
    finding-IgnoresPause id (λ c. Deciding.finalize_of c id now)
      (λ c. finalize-IgnoresPause c id now)
dispatch-IgnoresPause (Action.arbitrate x) e =
    finding-IgnoresPause x.id (λ c. Deciding.arbitrate_of c x) (λ c. arbitrate-IgnoresPause c x)
dispatch-IgnoresPause (Action.void_unproposed id now) e =
    finding-IgnoresPause id (λ c. Deciding.void_unproposed_of c id now)
      (λ c. void_unproposed-IgnoresPause c id now)
dispatch-IgnoresPause (Action.void_unarbitrated id now) e =
    finding-IgnoresPause id (λ c. Deciding.void_unarbitrated_of c id now)
      (λ c. void_unarbitrated-IgnoresPause c id now)
dispatch-IgnoresPause (Action.claim id caller) e =
    finding-IgnoresPause id (λ c. Payout.claim_of c id caller) (λ c. claim-IgnoresPause c id caller)
dispatch-IgnoresPause (Action.refund id caller) e =
    finding-IgnoresPause id (λ c. Payout.refund_of c id caller)
      (λ c. refund-IgnoresPause c id caller)
