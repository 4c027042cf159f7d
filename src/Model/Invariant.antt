-- ===== src/Model/Invariant.antt =====
-- The invariant of the whole model: every stored challenge is the object of a sound phase, and the
-- liability is the sum of what the contract holds.
use challenge_escrow_protoco.Prelude.{
  ℕ, ◌+◌, ◌-◌, ◌==◌, true, false, ◌≤◌, String, ◌≡◌, refl, sym, ap, eq_iff, str_eq, lookup-insert,
  Bool-cases, subst, ◌∙◌, inl, inr, Option, none, some, [], ◌∷◌, arith, Option-cases, Dict, lookup,
  insert, AllEntries, AllEntries-lookup, AllEntries-insert, total_of, total_of-insert, le-total_of,
  eq_refl,
}
use challenge_escrow_protoco.Model.Doubles.{max_safe_integer, double-exact}
use challenge_escrow_protoco.Model.Types.{Code, Challenge, Model}
use challenge_escrow_protoco.Model.Exec.{Exec, Result, ok, rejected, crashed, ◌>>=◌, or_reject}
use challenge_escrow_protoco.Model.Shared.{find_challenge}
use challenge_escrow_protoco.Model.Phase.{Terms, Phase, a_won, b_won, held, concretize}
use challenge_escrow_protoco.Model.Machine.{check_challenge, check_from, assert_invariants}
use challenge_escrow_protoco.Model.Settle.{joins, liability_after, settled}
use challenge_escrow_protoco.Model.Step.{Step, Steps, steps}
use challenge_escrow_protoco.Model.Sound.{IsSound, StaysSound}

-- A stored object with its terms and phase.
pub record IsEntry (id : String) (c : Challenge) : Type 0 where
  pub terms : Terms
  pub phase : Phase
  pub object : c ≡ concretize terms phase
  pub named : terms.id ≡ id
  pub sound : IsSound terms phase

abbrev pub outstanding : Challenge → ℕ
outstanding c = c.outstanding

-- Every stored challenge is the object of a sound phase.
abbrev pub HasEntries : Model → Type 0
HasEntries m = AllEntries IsEntry m.challenges

-- What is outstanding comes to a safe integer, which no sum rounds.
abbrev pub IsSafe : Model → Type 0
IsSafe m = total_of outstanding m.challenges ≤ max_safe_integer

pub record IsValid (m : Model) : Type 0 where
  pub entries : HasEntries m
  pub solvent : m.total_outstanding_liability ≡ total_of outstanding m.challenges
  pub safe : IsSafe m

-- What an action does to the object of one challenge: nothing, or one step of the diagram.
pub data Moves (c c' : Challenge) : Type 0 where
  still : c' ≡ c → Moves c c'
  moved :
      (t : Terms) (ph next : Phase)
      → c ≡ concretize t ph
      → c' ≡ concretize t next
      → IsSound t ph
      → IsSound t next
      → Step t ph next
      → Moves c c'

-- No challenge is lost, and each one moves along the diagram.
pub record Evolves (m m' : Model) : Type 0 where
  pub at :
      (id : String) (c : Challenge)
      → lookup id m.challenges ≡ some c
      → (c' : Challenge) × (lookup id m'.challenges ≡ some c') × Moves c c'

pub Evolves-refl : (m : Model) → Evolves m m
Evolves-refl m = record { at = λ id c found. (c, found, still refl) }

pub Evolves-same : (m m' : Model) → m'.challenges ≡ m.challenges → Evolves m m'
Evolves-same m m' e = record { at = λ id c found. (c, rw e found, still refl) }

-- A write to one challenge that is a step, or to a name that was free.
pub Evolves-insert :
    (m m' : Model) (id : String) (new : Challenge)
    → m'.challenges ≡ insert id new m.challenges
    → ((c : Challenge) → lookup id m.challenges ≡ some c → Moves c new)
    → Evolves m m'
Evolves-insert m m' id new wrote step = record {
  at = λ j c found. elim (Bool-cases (str_eq id j)) [
    | inl same ↦
        let here : id ≡ j = (eq_iff id j).0 same in
        (new, rw (wrote, lookup-insert, same) refl, step c (rw here found))
    | inr other ↦ (c, rw (wrote, lookup-insert, other) found, still refl)
  ];
}

-- What an action has done to a model of sound phases: it succeeds, they stay sound, and a valid model
-- stays valid if it is safe; or it rejects and nothing has changed. It never faults.
abbrev pub Good : Model → Result (Unit {0}) × Model → Type 0
Good m (ok _, m') = HasEntries m' × Evolves m m' × (IsValid m → IsSafe m' → IsValid m')
Good m (rejected c, m') = m' ≡ m
Good m (crashed x, m') = ⊥

pub outstanding-concretize : (t : Terms) (ph : Phase) → (concretize t ph).outstanding ≡ held t ph
outstanding-concretize t (Phase.opened n) = refl
outstanding-concretize t _ = refl

settled-HasEntries :
    (m : Model) (id : String) (t : Terms) (ph next : Phase)
    → HasEntries m
    → t.id ≡ id
    → IsSound t next
    → HasEntries (settled m id t ph (ok next)).1
settled-HasEntries m id t ph next v named s =
    AllEntries-insert IsEntry id (concretize t next) m.challenges
      (record { terms = t; phase = next; object = refl; named = named; sound = s }) v

-- The liability covers what is held for each challenge.
pub held-le-liability :
    (m : Model) (id : String) (t : Terms) (ph : Phase)
    → IsValid m
    → lookup id m.challenges ≡ some (concretize t ph)
    → held t ph ≤ m.total_outstanding_liability
held-le-liability m id t ph v found = omega (
  arith,
  v.solvent,
  outstanding-concretize t ph,
  le-total_of outstanding id {v = concretize t ph} m.challenges found,
)

-- Only an acceptance adds to what is held.
Held : Terms → Phase → Phase → Type 0
Held t ph next =
    (joins ph next ≡ true → held t next ≡ held t ph + t.stake)
    × (joins ph next ≡ false → held t next ≤ held t ph)

Step-Held : (t : Terms) (ph next : Phase) → Step t ph next → Held t ph next
unfolding Held
Step-Held t _ _ (Step.advance n now h) = ((λ e. ground arith), (λ e. ground arith))
Step-Held t _ _ (Step.accept n now a h) = ((λ e. ground arith), (λ e. ground arith))
Step-Held t _ _ (Step.cancel n now h) = ((λ e. ground arith), (λ e. ground arith))
Step-Held t _ _ (Step.expire n now h) = ((λ e. ground arith), (λ e. ground arith))
Step-Held t _ _ (Step.propose n a p h h') = ((λ e. ground arith), (λ e. ground arith))
Step-Held t _ _ (Step.dispute n a p d h) = ((λ e. ground arith), (λ e. ground arith))
Step-Held t _ _ (Step.finalize n now a p h) = ((λ e. ground arith), (λ e. ground arith))
Step-Held t _ _ (Step.arbitrate n now a p d o e h) = ((λ e. ground arith), (λ e. ground arith))
Step-Held t _ _ (Step.time_out n now a h) = ((λ e. ground arith), (λ e. ground arith))
Step-Held t _ _ (Step.time_out_dispute n now a p d h) = ((λ e. ground arith), (λ e. ground arith))
Step-Held t _ _ (Step.claim k v e) = ((λ e. ground arith), (λ e. ground arith))
Step-Held t _ _ (Step.refund_cancelled n) = ((λ e. ground arith), (λ e. ground arith))
Step-Held t _ _ (Step.refund_expired n) = ((λ e. ground arith), (λ e. ground arith))
Step-Held t _ _ (Step.refund_challenger k e paid) = ((λ e. ground arith), (λ e. ground arith))
Step-Held t _ _ (Step.refund_acceptor k e paid) = ((λ e. ground arith), (λ e. ground arith))

-- Where the sums are safe, the liability changes by what is held.
liability_after-exact :
    (total : ℕ) (t : Terms) (ph next : Phase)
    → Held t ph next
    → held t ph ≤ total
    → total ≤ max_safe_integer
    → total + held t next ≤ max_safe_integer + held t ph
    → liability_after total t ph next + held t ph ≡ total + held t next
unfolding Held
liability_after-exact total t ph next (joined, paid) covered safe after =
    elim (Bool-cases (joins ph next)) [
      | inl e ↦
          let more = joined e in rw (e, double-exact (total + t.stake) (omega arith)) (omega arith)
      | inr e ↦
          let less = paid e in
          elim (Bool-cases (held t next == held t ph)) [
            | inl same ↦ rw (e, same) (ground arith)
            | inr other ↦
                rw (e, other, double-exact (total - (held t ph - held t next)) (omega arith))
                  (omega arith)
          ]
    ]

total-settled :
    (m : Model) (id : String) (t : Terms) (ph next : Phase)
    → lookup id m.challenges ≡ some (concretize t ph)
    → total_of outstanding (settled m id t ph (ok next)).1.challenges + held t ph
      ≡ total_of outstanding m.challenges + held t next
total-settled m id t ph next found = omega (
  arith,
  total_of-insert outstanding id (concretize t next) {old = concretize t ph} m.challenges found,
  outstanding-concretize t ph,
  outstanding-concretize t next,
  le-total_of outstanding id {v = concretize t ph} m.challenges found,
)

-- A step that does not add to what is held leaves a safe model safe.
pub settled-IsSafe :
    (m : Model) (id : String) (t : Terms) (ph next : Phase)
    → IsSafe m
    → lookup id m.challenges ≡ some (concretize t ph)
    → held t next ≤ held t ph
    → IsSafe (settled m id t ph (ok next)).1
settled-IsSafe m id t ph next safe found less = omega (arith, total-settled m id t ph next found)

settled-IsValid :
    (m : Model) (id : String) (t : Terms) (ph next : Phase)
    → HasEntries (settled m id t ph (ok next)).1
    → lookup id m.challenges ≡ some (concretize t ph)
    → Step t ph next
    → IsValid m
    → IsSafe (settled m id t ph (ok next)).1
    → IsValid (settled m id t ph (ok next)).1
settled-IsValid m id t ph next entries found st v safe =
    let total = m.total_outstanding_liability in
    let sum = total-settled m id t ph next found in
    let covered : held t ph ≤ total = held-le-liability m id t ph v found in
    let exact =
      liability_after-exact total t ph next (Step-Held t ph next st) covered
        (omega (arith, v.solvent, v.safe)) (omega (arith, v.solvent)) in
    record { entries = entries; solvent = omega (arith, v.solvent, exact, sum); safe = safe }

settled-Evolves :
    (m : Model) (id : String) (t : Terms) (ph next : Phase)
    → lookup id m.challenges ≡ some (concretize t ph)
    → IsSound t ph
    → IsSound t next
    → Step t ph next
    → Evolves m (settled m id t ph (ok next)).1
settled-Evolves m id t ph next found h s st =
    Evolves-insert m (settled m id t ph (ok next)).1 id (concretize t next) refl
      λ c e. moved t ph next (cc (e, found)) refl h s st

-- An abstract step that stays sound is a good action on the model.
pub settled-Good :
    (m : Model) (id : String) (t : Terms) (ph : Phase) (r : Result Phase)
    → HasEntries m
    → lookup id m.challenges ≡ some (concretize t ph)
    → t.id ≡ id
    → IsSound t ph
    → StaysSound t r
    → Steps t ph r
    → Good m (settled m id t ph r)
settled-Good m id t ph (rejected c) v found named h s st = refl
settled-Good m id t ph (crashed x) v found named h s st = s
settled-Good m id t ph (ok next) v found named h s (steps st) =
    let entries = settled-HasEntries m id t ph next v named s in
    (
      entries,
      settled-Evolves m id t ph next found h s st,
      (λ valid safe. settled-IsValid m id t ph next entries found st valid safe),
    )

bind_or_reject :
    (m : Model) (body : Challenge → Exec (Unit {0})) (o : Option Challenge) (c : Challenge)
    → o ≡ some c
    → (or_reject o Code.challenge_not_found >>= body) m ≡ body c m
bind_or_reject m body none c e = cc
bind_or_reject m body (some b) c e = let same : b ≡ c = cc in ap (λ (x : Challenge). body x m) same

module _ (m : Model) (id : String) (body : Challenge → Exec (Unit {0})) where
  pub find_challenge_missing :
      lookup id m.challenges ≡ none
      → (find_challenge id >>= body) m ≡ (rejected Code.challenge_not_found, m)
  find_challenge_missing e = ground arith

  pub find_challenge_found :
      (c : Challenge) → lookup id m.challenges ≡ some c → (find_challenge id >>= body) m ≡ body c m
  find_challenge_found c e = bind_or_reject m body (lookup id m.challenges) c e

  -- An action on one challenge is good when it is good at the object of every sound phase.
  pub on_challenge :
      HasEntries m
      → ((t : Terms) (ph : Phase)
          → lookup id m.challenges ≡ some (concretize t ph)
          → t.id ≡ id
          → IsSound t ph
          → Good m (body (concretize t ph) m))
      → Good m ((find_challenge id >>= body) m)
  on_challenge v good = elim (Option-cases (lookup id m.challenges)) [
    | inl missing ↦ subst (Good m) (sym (find_challenge_missing missing)) refl
    | inr (c, found) ↦
        let e : IsEntry id c = AllEntries-lookup IsEntry id {v = c} m.challenges v found in
        let at : lookup id m.challenges ≡ some (concretize e.terms e.phase) =
          found ∙ ap some e.object in
        subst (Good m) (sym (find_challenge_found (concretize e.terms e.phase) at))
          (good e.terms e.phase at e.named e.sound)
  ]

-- The body of the loop in `assertInvariants` finds nothing at the object of a sound phase.
pub check_challenge-concretize :
    (t : Terms) (ph : Phase) → IsSound t ph → check_challenge (concretize t ph) ≡ none
unfolding check_challenge
check_challenge-concretize t (Phase.resolved k a_won e paid) h =
    ground (arith, eq_refl t.challenger, eq_refl k.acceptor)
check_challenge-concretize t (Phase.resolved k b_won e paid) h =
    ground (arith, eq_refl t.challenger, eq_refl k.acceptor)
check_challenge-concretize t (Phase.void k e paid_c paid_a) h =
    ground (arith, eq_refl t.challenger, eq_refl k.acceptor)
check_challenge-concretize t (Phase.cancelled n paid) h = ground arith
check_challenge-concretize t (Phase.expired n paid) h = ground arith
check_challenge-concretize t _ h = ground arith

-- The loop adds up the liabilities, and ends without a fault where their sum is the total, and safe.
check_from_lem :
    (n : ℕ) (l : Dict Challenge) (total : ℕ)
    → AllEntries IsEntry l
    → n + total_of outstanding l ≡ total
    → total ≤ max_safe_integer
    → check_from n l total ≡ none
unfolding check_from
check_from_lem n [] total h e safe = ground arith
check_from_lem n ((id, c) ∷ l) total (x, h) e safe =
    let clear : check_challenge c ≡ none =
      ap check_challenge x.object ∙ check_challenge-concretize x.terms x.phase x.sound in
    rw (clear, double-exact (n + c.outstanding) (omega arith))
      (check_from_lem (n + c.outstanding) l total h (omega (arith, e)) safe)

pub assert_invariants_pass : (m : Model) → IsValid m → assert_invariants m ≡ none
unfolding assert_invariants
assert_invariants_pass m v =
    check_from_lem 0 m.challenges m.total_outstanding_liability v.entries (omega (arith, v.solvent))
      (omega (arith, v.solvent, v.safe))
