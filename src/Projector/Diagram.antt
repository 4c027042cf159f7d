-- ===== src/Projector/Diagram.antt =====
-- tools/client/projector.ts: the moves that projected challenges make.
use challenge_escrow_protoco.Prelude.{
  ◌∷◌, ℕ, ◌==◌, String, ◌≡◌, refl, sym, ap, subst, ◌∙◌, Bool, true, false, ◌⊎◌, inl, inr, some,
  arith, if◌then◌else◌, Option-cases, includes,
}
use challenge_escrow_protoco.Model.Types.{
  State, opened, active, proposed, disputed, cancelled, expired, resolved_a, resolved_b, void,
  Outcome, for_a,
}
use challenge_escrow_protoco.Events.Types.{
  EventKind, challenge_accepted, challenge_cancelled, challenge_expired, outcome_proposed,
  outcome_disputed, challenge_resolved, challenge_voided,
}
use challenge_escrow_protoco.Projector.Types.{MutableChallenge, Verdict}
use challenge_escrow_protoco.Projector.Payees.{payees}
use challenge_escrow_protoco.Projector.Shared.{state_index, is_state, transition, terminal, follow}
use challenge_escrow_protoco.Projector.Resolving.{resolved_state}

-- The diagram: an event of a kind takes a challenge from a state to another.
pub data Move : State → EventKind → State → Type 0 where
  accept : Move opened challenge_accepted active
  cancel : Move opened challenge_cancelled cancelled
  expire : Move opened challenge_expired expired
  propose : Move active outcome_proposed proposed
  dispute : Move proposed outcome_disputed disputed
  resolve :
      (s : State) (o : Outcome)
      → (s ≡ proposed) ⊎ (s ≡ disputed)
      → Move s challenge_resolved (resolved_state o)
  annul : (s : State) → terminal s ≡ false → Move s challenge_voided void

abbrev pub Stays : State → EventKind → State → Type 0
Stays s kind t = (t ≡ s) ⊎ Move s kind t

-- What an event does to the payouts of a challenge: nothing, or one to a wallet that its state pays and
-- that was not paid.
pub data Pays (c d : MutableChallenge) : Type 0 where
  unpaid : d.payout_ids ≡ c.payout_ids → d.payout_wallets ≡ c.payout_wallets → Pays c d
  paid :
      (id wallet : String)
      → terminal c.state ≡ true
      → d.state ≡ c.state
      → includes (payees c) wallet ≡ true
      → includes c.payout_wallets wallet ≡ false
      → d.payout_ids ≡ id ∷ c.payout_ids
      → d.payout_wallets ≡ wallet ∷ c.payout_wallets
      → Pays c d

-- What an event leaves of a challenge: its state or a move of the diagram, its creation, its acceptor
-- after the end, its payouts or one more, and the count of its events.
pub record Evolves (kind : EventKind) (c d : MutableChallenge) : Type 0 where
  pub moves : Stays c.state kind d.state
  pub created_kept : d.created_event ≡ c.created_event
  pub acceptor_kept : terminal c.state ≡ true → d.accepting_wallet ≡ c.accepting_wallet
  pub pays : Pays c d
  pub count_kept : d.event_count ≡ c.event_count

-- A move starts in no terminal state.
pub Move-terminal : {s t : State} {kind : EventKind} → Move s kind t → terminal s ≡ false
unfolding terminal
Move-terminal Move.accept = refl
Move-terminal Move.cancel = refl
Move-terminal Move.expire = refl
Move-terminal Move.propose = refl
Move-terminal Move.dispute = refl
Move-terminal (Move.resolve s o (inl e)) = rw e refl
Move-terminal (Move.resolve s o (inr e)) = rw e refl
Move-terminal (Move.annul s e) = e

state_at : ℕ → State
state_at n =
    if n == 0
    then opened
    else if n == 1
    then active
    else if n == 2
    then proposed
    else if n == 3
    then disputed
    else if n == 4
    then cancelled
    else if n == 5
    then expired
    else if n == 6
    then resolved_a
    else if n == 7
    then resolved_b
    else void

state_at-state_index : (s : State) → state_at (state_index s) ≡ s
unfolding state_at state_index
state_at-state_index opened = refl
state_at-state_index active = refl
state_at-state_index proposed = refl
state_at-state_index disputed = refl
state_at-state_index cancelled = refl
state_at-state_index expired = refl
state_at-state_index resolved_a = refl
state_at-state_index resolved_b = refl
state_at-state_index void = refl

pub is_state-eq : (s t : State) → is_state s t ≡ true → s ≡ t
unfolding is_state
is_state-eq s t e =
    let same : state_index s ≡ state_index t = ground arith in
    sym (state_at-state_index s) ∙ ap state_at same ∙ state_at-state_index t

some_eq {ℓ} : {A : Type ℓ} {a b : A} → some a ≡ some b → a ≡ b
some_eq e = cc

transition-Move : (s t : State) (kind : EventKind) → transition s kind ≡ some t → Move s kind t
unfolding transition terminal
transition-Move opened t challenge_accepted e = subst (Move _ _) (some_eq e) Move.accept
transition-Move active t outcome_proposed e = subst (Move _ _) (some_eq e) Move.propose
transition-Move proposed t outcome_disputed e = subst (Move _ _) (some_eq e) Move.dispute
transition-Move opened t challenge_cancelled e = subst (Move _ _) (some_eq e) Move.cancel
transition-Move opened t challenge_expired e = subst (Move _ _) (some_eq e) Move.expire
transition-Move proposed t challenge_resolved e =
    subst (Move _ _) (some_eq e) (Move.resolve _ for_a (inl refl))
transition-Move disputed t challenge_resolved e =
    subst (Move _ _) (some_eq e) (Move.resolve _ for_a (inr refl))
transition-Move opened t challenge_voided e = subst (Move _ _) (some_eq e) (Move.annul _ refl)
transition-Move active t challenge_voided e = subst (Move _ _) (some_eq e) (Move.annul _ refl)
transition-Move proposed t challenge_voided e = subst (Move _ _) (some_eq e) (Move.annul _ refl)
transition-Move disputed t challenge_voided e = subst (Move _ _) (some_eq e) (Move.annul _ refl)
transition-Move _ t _ e = cc

pub same : (kind : EventKind) (c : MutableChallenge) → Evolves kind c c
same kind c = record {
  moves = inl refl;
  created_kept = refl;
  acceptor_kept = λ t. refl;
  pays = Pays.unpaid refl refl;
  count_kept = refl;
}

-- Of a test's two verdicts, where each may use how the test came out.
pub by_test {ℓ} :
    (P : Verdict → Type ℓ) (b : Bool) {x y : Verdict}
    → (b ≡ true → P x)
    → (b ≡ false → P y)
    → P (if b then x else y)
by_test P true hx hy = hx refl
by_test P false hx hy = hy refl

-- A challenge with other notes of its acceptance, proposal or dispute follows the diagram as it does.
pub follow-Evolves :
    (kind : EventKind) (c d : MutableChallenge)
    → d.state ≡ c.state
    → d.created_event ≡ c.created_event
    → (terminal c.state ≡ true → d.accepting_wallet ≡ c.accepting_wallet)
    → d.payout_ids ≡ c.payout_ids
    → d.payout_wallets ≡ c.payout_wallets
    → d.event_count ≡ c.event_count
    → Evolves kind c (follow kind d).challenge
unfolding follow
follow-Evolves kind c d es ec ea ei ew en =
    by_test (λ v. Evolves kind c v.challenge) (terminal d.state)
      (λ e. record {
        moves = inl es;
        created_kept = ec;
        acceptor_kept = ea;
        pays = Pays.unpaid ei ew;
        count_kept = en;
      })
      (λ e. elim (Option-cases (transition d.state kind)) [
        | inl n ↦ rw n (record {
          moves = inl es;
          created_kept = ec;
          acceptor_kept = ea;
          pays = Pays.unpaid ei ew;
          count_kept = en;
        })
        | inr (t, m) ↦ rw m (record {
          moves = inr (subst (λ s. Move s kind t) es (transition-Move d.state t kind m));
          created_kept = ec;
          acceptor_kept = ea;
          pays = Pays.unpaid ei ew;
          count_kept = en;
        })
      ])
