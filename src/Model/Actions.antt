-- ===== src/Model/Actions.antt =====
-- Every action on a valid model is good: it succeeds and keeps the invariant, or rejects and changes
-- nothing; no read through null and no failed assertion is met.
use challenge_escrow_protoco.Prelude.{
  ◌⊎◌, str_eq, bool_eq, ℕ, String, ◌≡◌, refl, sym, subst, inl, inr, Bool, true, false, Bool-cases,
  some, lookup,
}
use challenge_escrow_protoco.Model.Types.{Code, Model, Accept, Propose, Answer, Action}
use challenge_escrow_protoco.Model.Exec.{Exec, Result, ok, rejected, ◌>>=◌, ◌>>◌, this, reject_if}
use challenge_escrow_protoco.Model.Shared.{find_challenge}
use challenge_escrow_protoco.Model.Opening
use challenge_escrow_protoco.Model.Opening.{nonce_key}
use challenge_escrow_protoco.Model.Deciding
use challenge_escrow_protoco.Model.Payout
use challenge_escrow_protoco.Model.Phase.{Terms, Phase, concretize}
use challenge_escrow_protoco.Model.Spec
use challenge_escrow_protoco.Model.Spec.{terms_of}
use challenge_escrow_protoco.Model.Settle.{settled, roles}
use challenge_escrow_protoco.Model.Refine
use challenge_escrow_protoco.Model.Refine.{stored}
use challenge_escrow_protoco.Model.Sound
use challenge_escrow_protoco.Model.Step
use challenge_escrow_protoco.Model.Step.{Steps}
use challenge_escrow_protoco.Model.Sound.{IsSound, StaysSound}
use challenge_escrow_protoco.Model.Creation.{create-Good}
use challenge_escrow_protoco.Model.Machine.{dispatch}
use challenge_escrow_protoco.Model.Invariant.{
  HasEntries, Good, Evolves-refl, Evolves-same, settled-Good, on_challenge,
}

-- A refined handler is good.
refined :
    (m : Model) (id : String) (t : Terms) (ph : Phase) (r : Result Phase)
    (run : Result (Unit {0}) × Model)
    → run ≡ settled m id t ph r
    → HasEntries m
    → lookup id m.challenges ≡ some (concretize t ph)
    → t.id ≡ id
    → IsSound t ph
    → StaysSound t r
    → Steps t ph r
    → Good m run
refined m id t ph r run e v found named h s st =
    subst (Good m) (sym e) (settled-Good m id t ph r v found named h s st)

-- A handler that does what its specification says, or rejects, is good.
obeyed :
    (m : Model) (id : String) (t : Terms) (ph : Phase) (r : Result Phase)
    (run : Result (Unit {0}) × Model)
    → (run ≡ settled m id t ph r) ⊎ (run ≡ (rejected Code.liability_accounting_mismatch, m))
    → HasEntries m
    → lookup id m.challenges ≡ some (concretize t ph)
    → t.id ≡ id
    → IsSound t ph
    → StaysSound t r
    → Steps t ph r
    → Good m run
obeyed m id t ph r run (inl e) v found named h s st = refined m id t ph r run e v found named h s st
obeyed m id t ph r run (inr e) v found named h s st = rw e refl

pause-Good :
    (m : Model) (caller : String) (flag : Bool)
    → HasEntries m
    → Good m (Opening.pause caller flag m)
unfolding Opening.pause
pause-Good m caller flag v =
    let after = record m { paused = flag } in
    let changed : Good m (ok tt, after) = (
      v,
      Evolves-same m after refl,
      (λ valid safe. record { entries = v; solvent = valid.solvent; safe = safe }),
    ) in
    elim (Bool-cases (str_eq caller m.pauser)) [
      | inl e ↦ elim (Bool-cases (bool_eq flag m.paused)) [
        | inl same ↦ rw (e, same) refl
        | inr other ↦ rw (e, other) changed
      ]
      | inr e ↦ rw e refl
    ]

module _ (m : Model) (body : Exec (Unit {0})) where
  unguarded : (b : Bool) → b ≡ false → (reject_if b Code.contract_paused >> body) m ≡ body m
  unguarded true e = cc
  unguarded false e = refl

  paused_lem :
      m.paused ≡ true
      → (this >>= λ self. reject_if self.paused Code.contract_paused >> body) m
        ≡ (rejected Code.contract_paused, m)
  paused_lem e = rw e

  running_lem :
      m.paused ≡ false
      → (this >>= λ self. reject_if self.paused Code.contract_paused >> body) m ≡ body m
  running_lem e = unguarded m.paused e

-- A handler that the pause stops.
paused-Good :
    (m : Model) (body : Exec (Unit {0}))
    → Good m (body m)
    → Good m ((this >>= λ self. reject_if self.paused Code.contract_paused >> body) m)
paused-Good m body good = elim (Bool-cases m.paused) [
  | inl stopped ↦ subst (Good m) (sym (paused_lem m body stopped)) refl
  | inr running ↦ subst (Good m) (sym (running_lem m body running)) good
]

module _ (m : Model) (v : HasEntries m) where
  advance_nonce-Good :
      (id caller : String) (now : ℕ) → Good m (Opening.advance_nonce id caller now m)
  unfolding Opening.advance_nonce
  advance_nonce-Good id caller now =
      on_challenge m id (λ c. Opening.advance_nonce_of c id caller now) v
        λ t ph found named sound.
          refined m id t ph (Spec.advance_nonce t ph caller now) _
            (Refine.advance_nonce-Refines m id t ph caller now) v found named sound
            (Sound.advance_nonce-StaysSound t ph caller now sound)
            (Step.advance_nonce-Steps t ph caller now)

  cancel-Good : (id caller : String) (now : ℕ) → Good m (Opening.cancel id caller now m)
  unfolding Opening.cancel
  cancel-Good id caller now =
      on_challenge m id (λ c. Opening.cancel_of c id caller now) v
        λ t ph found named sound.
          refined m id t ph (Spec.cancel t ph caller now) _
            (Refine.cancel-Refines m id t ph caller now) v found named sound
            (Sound.cancel-StaysSound t ph caller now sound) (Step.cancel-Steps t ph caller now)

  expire-Good : (id : String) (now : ℕ) → Good m (Opening.expire id now m)
  unfolding Opening.expire
  expire-Good id now =
      on_challenge m id (λ c. Opening.expire_of c id now) v
        λ t ph found named sound.
          refined m id t ph (Spec.expire t ph now) _ (Refine.expire-Refines m id t ph now) v found
            named sound (Sound.expire-StaysSound t ph now sound) (Step.expire-Steps t ph now)

  accept-Good : (a : Accept) → Good m (Opening.accept a m)
  unfolding Opening.accept
  accept-Good a = paused-Good m (find_challenge a.id >>= λ c. Opening.accept_of c a) (
      on_challenge m a.id (λ c. Opening.accept_of c a) v
        λ t ph found named sound.
          refined m a.id t ph (Spec.accept (roles m) t ph a) _ (Refine.accept-Refines m t ph a) v
            found named sound (Sound.accept-StaysSound t (roles m) ph a sound)
            (Step.accept-Steps t (roles m) ph a))

  propose-Good : (x : Propose) → Good m (Deciding.propose x m)
  unfolding Deciding.propose
  propose-Good x = paused-Good m (find_challenge x.id >>= λ c. Deciding.propose_of c x) (
      on_challenge m x.id (λ c. Deciding.propose_of c x) v
        λ t ph found named sound.
          refined m x.id t ph (Spec.propose m.resolver t ph x) _ (Refine.propose-Refines m t ph x) v
            found named sound (Sound.propose-StaysSound t m.resolver ph x sound)
            (Step.propose-Steps t m.resolver ph x))

  dispute-Good : (x : Answer) → Good m (Deciding.dispute x m)
  unfolding Deciding.dispute
  dispute-Good x =
      on_challenge m x.id (λ c. Deciding.dispute_of c x) v
        λ t ph found named sound.
          refined m x.id t ph (Spec.dispute t ph x) _ (Refine.dispute-Refines m t ph x) v found
            named sound (Sound.dispute-StaysSound t ph x sound) (Step.dispute-Steps t ph x)

  finalize-Good : (id : String) (now : ℕ) → Good m (Deciding.finalize id now m)
  unfolding Deciding.finalize
  finalize-Good id now =
      on_challenge m id (λ c. Deciding.finalize_of c id now) v
        λ t ph found named sound.
          refined m id t ph (Spec.finalize t ph now) _
            (Refine.finalize-Refines m id t ph now sound.distinct) v found named sound
            (Sound.finalize-StaysSound t ph now sound) (Step.finalize-Steps t ph now)

  arbitrate-Good : (x : Answer) → Good m (Deciding.arbitrate x m)
  unfolding Deciding.arbitrate
  arbitrate-Good x =
      on_challenge m x.id (λ c. Deciding.arbitrate_of c x) v
        λ t ph found named sound.
          refined m x.id t ph (Spec.arbitrate m.arbiter t ph x) _
            (Refine.arbitrate-Refines m x.id t ph x sound.distinct refl) v found named sound
            (Sound.arbitrate-StaysSound t m.arbiter ph x sound)
            (Step.arbitrate-Steps t m.arbiter ph x)

  void_unproposed-Good : (id : String) (now : ℕ) → Good m (Deciding.void_unproposed id now m)
  unfolding Deciding.void_unproposed
  void_unproposed-Good id now =
      on_challenge m id (λ c. Deciding.void_unproposed_of c id now) v
        λ t ph found named sound.
          refined m id t ph (Spec.void_unproposed t ph now) _
            (Refine.void_unproposed-Refines m id t ph now sound.distinct) v found named sound
            (Sound.void_unproposed-StaysSound t ph now sound) (Step.void_unproposed-Steps t ph now)

  void_unarbitrated-Good : (id : String) (now : ℕ) → Good m (Deciding.void_unarbitrated id now m)
  unfolding Deciding.void_unarbitrated
  void_unarbitrated-Good id now =
      on_challenge m id (λ c. Deciding.void_unarbitrated_of c id now) v
        λ t ph found named sound.
          refined m id t ph (Spec.void_unarbitrated t ph now) _
            (Refine.void_unarbitrated-Refines m id t ph now sound.distinct) v found named sound
            (Sound.void_unarbitrated-StaysSound t ph now sound)
            (Step.void_unarbitrated-Steps t ph now)

  claim-Good : (id caller : String) → Good m (Payout.claim id caller m)
  unfolding Payout.claim
  claim-Good id caller =
      on_challenge m id (λ c. Payout.claim_of c id caller) v
        λ t ph found named sound.
          obeyed m id t ph (Spec.claim t ph caller) _
            (Refine.claim-cases m id t sound.staked ph caller sound.distinct) v found named sound
            (Sound.claim-StaysSound t ph caller sound) (Step.claim-Steps t ph caller)

  refund-Good : (id caller : String) → Good m (Payout.refund id caller m)
  unfolding Payout.refund
  refund-Good id caller =
      on_challenge m id (λ c. Payout.refund_of c id caller) v
        λ t ph found named sound.
          obeyed m id t ph (Spec.refund t ph caller) _
            (Refine.refund-cases m id t sound.staked ph caller sound.distinct) v found named sound
            (Sound.refund-StaysSound t ph caller sound) (Step.refund-Steps t ph caller)

-- The handler of any action, on a valid model.
pub dispatch-Good : (a : Action) (m : Model) → HasEntries m → Good m (dispatch a m)
unfolding dispatch
dispatch-Good Action.warp m v = (v, Evolves-refl m, (λ valid safe. valid))
dispatch-Good Action.other m v = refl
dispatch-Good (Action.pause caller flag) m v = pause-Good m caller flag v
dispatch-Good (Action.create a) m v = create-Good m a v
dispatch-Good (Action.advance_nonce id caller now) m v = advance_nonce-Good m v id caller now
dispatch-Good (Action.cancel id caller now) m v = cancel-Good m v id caller now
dispatch-Good (Action.accept a) m v = accept-Good m v a
dispatch-Good (Action.expire id now) m v = expire-Good m v id now
dispatch-Good (Action.finalize id now) m v = finalize-Good m v id now
dispatch-Good (Action.void_unproposed id now) m v = void_unproposed-Good m v id now
dispatch-Good (Action.void_unarbitrated id now) m v = void_unarbitrated-Good m v id now
dispatch-Good (Action.propose x) m v = propose-Good m v x
dispatch-Good (Action.dispute x) m v = dispute-Good m v x
dispatch-Good (Action.arbitrate x) m v = arbitrate-Good m v x
dispatch-Good (Action.claim id caller) m v = claim-Good m v id caller
dispatch-Good (Action.refund id caller) m v = refund-Good m v id caller
