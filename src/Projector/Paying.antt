-- ===== src/Projector/Paying.antt =====
-- tools/client/projector.ts: what the challenges of a projection have paid out.
use challenge_escrow_protoco.Prelude.{
  ℕ, ◌*◌, ◌≤◌, String, ◌≡◌, refl, ◌∙◌, Bool, true, false, not, ◌&&◌, ◌⊎◌, inl, inr, Option, none,
  some, List, [], ◌∷◌, includes, eq_iff, arith, Bool-cases,
}
use challenge_escrow_protoco.Model.Types.{State, cancelled, expired, resolved_a, resolved_b, void}
use challenge_escrow_protoco.Observer.Logs.{size}
use challenge_escrow_protoco.Events.Types.{EventKind}
use challenge_escrow_protoco.Projector.Types.{MutableChallenge}
use challenge_escrow_protoco.Projector.Shared.{terminal}
use challenge_escrow_protoco.Projector.Payees.{lowered, due_to, payees}
use challenge_escrow_protoco.Projector.Diagram.{Move, Pays, Evolves, Move-terminal}

abbrev all_in : List String → List String → Bool
all_in ys [] = true
all_in ys (x ∷ xs) = includes ys x && all_in ys xs

abbrev are_distinct : List String → Bool
are_distinct [] = true
are_distinct (x ∷ xs) = not (includes xs x) && are_distinct xs

-- No payout before the end; after it, only to wallets that the state pays, and to each once.
pub record IsPaid (c : MutableChallenge) : Type 0 where
  pub early : terminal c.state ≡ false → c.payout_wallets ≡ []
  pub payees_only : all_in (payees c) c.payout_wallets ≡ true
  pub once : are_distinct c.payout_wallets ≡ true
  pub counted : size c.payout_ids ≡ size c.payout_wallets

payees_kept :
    (c d : MutableChallenge)
    → d.state ≡ c.state
    → d.created_event ≡ c.created_event
    → d.accepting_wallet ≡ c.accepting_wallet
    → payees d ≡ payees c
unfolding payees
payees_kept c d es ec ea = cc (es, ec, ea)

pub state_kept :
    {kind : EventKind} {s t : State} → (t ≡ s) ⊎ Move s kind t → terminal s ≡ true → t ≡ s
state_kept (inl e) end = e
state_kept (inr m) end = cc (Move-terminal m)

ended_payees :
    {kind : EventKind} {c d : MutableChallenge}
    → Evolves kind c d
    → terminal c.state ≡ true
    → payees d ≡ payees c
ended_payees {kind} {c} {d} h end =
    payees_kept c d (state_kept h.moves end) h.created_kept (h.acceptor_kept end)

Pays-IsPaid :
    {kind : EventKind} {c d : MutableChallenge} → Evolves kind c d → Pays c d → IsPaid c → IsPaid d
Pays-IsPaid {kind} {c} {d} h (Pays.unpaid ei ew) p = elim (Bool-cases (terminal c.state)) [
  | inl end ↦ record {
    early = λ e. cc (state_kept h.moves end);
    payees_only = rw (ended_payees h end, ew) p.payees_only;
    once = rw ew p.once;
    counted = rw (ei, ew) p.counted;
  }
  | inr live ↦ record {
    early = λ e. ew ∙ p.early live;
    payees_only = rw (ew, p.early live) refl;
    once = rw ew p.once;
    counted = rw (ei, ew) p.counted;
  }
]
Pays-IsPaid {kind} {c} {d} h (Pays.paid id wallet end es payee new ei ew) p = record {
  early = λ e. cc;
  payees_only = rw (ended_payees h end, ew, payee) p.payees_only;
  once = rw (ew, new) p.once;
  counted = rw (ei, ew) (omega (arith, p.counted));
}

-- One event keeps what a challenge has paid right.
pub Evolves-IsPaid :
    {kind : EventKind} {c d : MutableChallenge} → Evolves kind c d → IsPaid c → IsPaid d
Evolves-IsPaid h p = Pays-IsPaid h h.pays p

none_in : (xs : List String) → all_in [] xs ≡ true → size xs ≡ 0
unfolding includes
none_in [] h = refl
none_in (x ∷ xs) h = cc

one_in :
    (a : String) (xs : List String)
    → all_in (a ∷ []) xs ≡ true
    → are_distinct xs ≡ true
    → size xs ≤ 1
unfolding includes
one_in a [] h k = omega arith
one_in a (x ∷ []) h k = omega arith
one_in a (x ∷ y ∷ xs) h k = ground (arith, eq_iff a x, eq_iff a y, eq_iff y x)

two_in :
    (a b : String) (xs : List String)
    → all_in (a ∷ b ∷ []) xs ≡ true
    → are_distinct xs ≡ true
    → size xs ≤ 2
unfolding includes
two_in a b [] h k = omega arith
two_in a b (x ∷ []) h k = omega arith
two_in a b (x ∷ y ∷ []) h k = omega arith
two_in a b (x ∷ y ∷ z ∷ xs) h k = ground (
  arith,
  eq_iff a x,
  eq_iff a y,
  eq_iff a z,
  eq_iff b x,
  eq_iff b y,
  eq_iff b z,
  eq_iff y x,
  eq_iff z x,
  eq_iff z y,
)

-- The amount of each payout in a state, and what the participants have deposited.
abbrev pub each_in : State → ℕ → ℕ
each_in resolved_a stake = stake * 2
each_in resolved_b stake = stake * 2
each_in _ stake = stake

abbrev deposits_in : State → ℕ → ℕ
deposits_in cancelled stake = stake
deposits_in expired stake = stake
deposits_in _ stake = stake * 2

unfoldable pub paid_out : MutableChallenge → ℕ
paid_out c = size c.payout_ids * each_in c.state c.created_event.stake_amount

unfoldable pub deposited : MutableChallenge → ℕ
deposited c = deposits_in c.state c.created_event.stake_amount

winner_within :
    (o : Option String) (xs : List String) (stake : ℕ)
    → all_in (lowered o) xs ≡ true
    → are_distinct xs ≡ true
    → size xs * (stake * 2) ≤ stake * 2
winner_within none xs stake h k = rw (none_in xs h) (omega arith)
winner_within (some w) xs stake h k = let few = one_in _ xs h k in grind arith

void_within :
    (a : String) (o : Option String) (xs : List String) (stake : ℕ)
    → all_in (a ∷ lowered o) xs ≡ true
    → are_distinct xs ≡ true
    → size xs * stake ≤ stake * 2
void_within a none xs stake h k = let few = one_in a xs h k in grind arith
void_within a (some w) xs stake h k = let few = two_in a _ xs h k in grind arith

single_within :
    (a : String) (xs : List String) (stake : ℕ)
    → all_in (a ∷ []) xs ≡ true
    → are_distinct xs ≡ true
    → size xs * stake ≤ stake
single_within a xs stake h k = let few = one_in a xs h k in grind arith

none_within : (xs : List String) (stake : ℕ) → all_in [] xs ≡ true → size xs * stake ≤ stake * 2
none_within xs stake h = rw (none_in xs h) (omega arith)

within :
    (c : MutableChallenge) (s : State) (xs : List String) (stake : ℕ)
    → all_in (due_to c s) xs ≡ true
    → are_distinct xs ≡ true
    → size xs * each_in s stake ≤ deposits_in s stake
within c cancelled xs stake h k = single_within _ xs stake h k
within c expired xs stake h k = single_within _ xs stake h k
within c resolved_a xs stake h k = winner_within _ xs stake h k
within c resolved_b xs stake h k = winner_within _ xs stake h k
within c void xs stake h k = void_within _ c.accepting_wallet xs stake h k
within c _ xs stake h k = none_within xs stake h

-- What has been paid right was deposited.
pub IsPaid-within : (c : MutableChallenge) → IsPaid c → paid_out c ≤ deposited c
unfolding paid_out deposited payees
IsPaid-within c p =
    rw p.counted
      (within c c.state c.payout_wallets c.created_event.stake_amount p.payees_only p.once)
