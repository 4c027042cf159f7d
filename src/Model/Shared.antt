-- ===== src/Model/Shared.antt =====
-- tools/model/challenge-model.mjs: the reads and writes that the handlers share.
use challenge_escrow_protoco.Prelude.{
  ℕ, String, Bool, true, false, Option, none, some, lookup, insert, ◌==◌, if◌then◌else◌,
}
use challenge_escrow_protoco.Model.Types.{
  State, opened, active, proposed, disputed, cancelled, expired, resolved_a, resolved_b, void,
  Outcome, for_a, for_b, for_void, Side, side_a, side_b, Code, Entitlement, Challenge,
}
use challenge_escrow_protoco.Model.Exec.{Exec, ok, ◌>>=◌, or_reject, read}

abbrev pub rank : State → ℕ
rank opened = 0
rank active = 1
rank proposed = 2
rank disputed = 3
rank cancelled = 4
rank expired = 5
rank resolved_a = 6
rank resolved_b = 7
rank void = 8

-- `challenge.state === state`
abbrev pub state_is : State → State → Bool
state_is s t = rank s == rank t

abbrev pub outcome_eq : Outcome → Outcome → Bool
outcome_eq for_a for_a = true
outcome_eq for_b for_b = true
outcome_eq for_void for_void = true
outcome_eq _ _ = false

abbrev pub challenger_wins : Side → Outcome → Bool
challenger_wins side_a for_a = true
challenger_wins side_b for_b = true
challenger_wins _ _ = false

abbrev pub winner : Challenge → Outcome → Option String
winner c outcome =
    if challenger_wins c.challenger_side outcome then some c.challenger else c.acceptor

-- `RESOLVED.has(state)`
abbrev pub is_resolved : State → Bool
is_resolved resolved_a = true
is_resolved resolved_b = true
is_resolved _ = false

-- `#challenge`
abbrev pub find_challenge : String → Exec Challenge
find_challenge id s = or_reject (lookup id s.challenges) Code.challenge_not_found s

-- The object of a challenge after an assignment to its fields.
abbrev pub write : String → Challenge → Exec (Unit {0})
write id c s = (ok tt, record s { challenges = insert id c s.challenges })

abbrev pub set_liability : (ℕ → ℕ) → Exec (Unit {0})
set_liability f s =
    (ok tt, record s { total_outstanding_liability = f s.total_outstanding_liability })

-- A property is named by `null` as by the text "null".
abbrev pub property : Option String → String
property none = "null"
property (some w) = w

abbrev pub claim_up_to : Challenge → String → Entitlement → Exec Challenge
claim_up_to c wallet e s = (ok (record c { entitlements = insert wallet e c.entitlements }), s)

-- `challenge.entitlements[wallet].claimable = amount`, on the object of the challenge
abbrev pub set_claimable : Challenge → Option String → ℕ → Exec Challenge
set_claimable c wallet amount = do
  e ← read (lookup (property wallet) c.entitlements)
  claim_up_to c (property wallet) (record e { claimable = amount })
