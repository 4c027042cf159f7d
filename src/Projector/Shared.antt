-- ===== src/Projector/Shared.antt =====
-- tools/client/projector.ts: the tests that the handlers share, and the step by `transition`.
use challenge_escrow_protoco.Prelude.{
  ℕ, ◌==◌, String, Bool, true, false, not, Option, none, some, List, [], ◌∷◌, ◌++◌, includes,
  str_eq, if◌then◌else◌,
}
use challenge_escrow_protoco.Model.Types.{
  State, opened, active, proposed, disputed, cancelled, expired, resolved_a, resolved_b, void,
  Outcome, for_a, for_b, for_void,
}
use challenge_escrow_protoco.Events.Types.{
  EventKind, challenge_accepted, challenge_cancelled, challenge_expired, outcome_proposed,
  outcome_disputed, challenge_resolved, challenge_voided, EventSide, on_a, on_b, ReleaseDeclared,
}
use challenge_escrow_protoco.Projector.Types.{
  AnomalyCode, invalid_transition, MutableChallenge, Verdict,
}

-- The place of a state in the list that `projectEvent` searches.
unfoldable pub state_index : State → ℕ
state_index opened = 0
state_index active = 1
state_index proposed = 2
state_index disputed = 3
state_index cancelled = 4
state_index expired = 5
state_index resolved_a = 6
state_index resolved_b = 7
state_index void = 8

unfoldable pub is_state : State → State → Bool
unfolding state_index
is_state s t = state_index s == state_index t

-- `transition`
unfoldable pub transition : State → EventKind → Option State
transition opened challenge_accepted = some active
transition active outcome_proposed = some proposed
transition proposed outcome_disputed = some disputed
transition opened challenge_cancelled = some cancelled
transition opened challenge_expired = some expired
transition proposed challenge_resolved = some resolved_a
transition disputed challenge_resolved = some resolved_a
transition opened challenge_voided = some void
transition active challenge_voided = some void
transition proposed challenge_voided = some void
transition disputed challenge_voided = some void
transition _ _ = none

-- `terminal`
unfoldable pub terminal : State → Bool
terminal opened = false
terminal active = false
terminal proposed = false
terminal disputed = false
terminal _ = true

abbrev pub is_outcome : Outcome → Outcome → Bool
is_outcome for_a for_a = true
is_outcome for_b for_b = true
is_outcome for_void for_void = true
is_outcome _ _ = false

abbrev pub holds_outcome : Outcome → Option Outcome → Bool
holds_outcome o none = false
holds_outcome o (some p) = is_outcome o p

abbrev pub holds_number : ℕ → Option ℕ → Bool
holds_number n none = false
holds_number n (some m) = n == m

abbrev pub is_side : EventSide → EventSide → Bool
is_side on_a on_a = true
is_side on_b on_b = true
is_side _ _ = false

abbrev pub other_side : EventSide → EventSide
other_side on_a = on_b
other_side on_b = on_a

-- `overlapsReleaseBoundary`
unfoldable pub overlaps_release_boundary : String → Option ReleaseDeclared → Bool
overlaps_release_boundary wallet none = false
overlaps_release_boundary wallet (some r) =
    includes (r.escrow_contract ∷ r.canonical_token ∷ r.resolver ∷ r.arbiter ∷ []) wallet

-- `release.event && wallet !== release.event.role`
abbrev pub lacks_role : (ReleaseDeclared → String) → String → Option ReleaseDeclared → Bool
lacks_role role wallet none = false
lacks_role role wallet (some r) = not (str_eq wallet (role r))

abbrev pub anomalous : AnomalyCode → MutableChallenge → Verdict
anomalous code c = record { anomaly = some code; challenge = c }

abbrev pub accords : MutableChallenge → Verdict
accords c = record { anomaly = none; challenge = c }

abbrev pub moved : MutableChallenge → Option State → Verdict
moved c none = anomalous invalid_transition c
moved c (some s) = accords (record c { state = s })

-- The end of `projectEvent`: the step of the diagram for a kind.
unfoldable pub follow : EventKind → MutableChallenge → Verdict
follow kind c =
    if terminal c.state then anomalous invalid_transition c else moved c (transition c.state kind)

-- `if (!hashes.includes(hash)) hashes.push(hash)`
unfoldable pub push_new : List String → String → List String
push_new hashes hash = if includes hashes hash then hashes else hashes ++ (hash ∷ [])
