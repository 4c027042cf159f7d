-- ===== src/Projector/Events.antt =====
-- tools/client/projector.ts: `projectEvent`, and its run over the events of a projection.
use challenge_escrow_protoco.Prelude.{
  ℕ, ◌+◌, String, Bool, false, not, Option, none, some, List, [], ◌∷◌, ◌++◌, lookup, insert,
  bool_eq, if◌then◌else◌,
}
use challenge_escrow_protoco.Events.Types.{
  EventKind, release_declared, pause_status_changed, challenge_created, ReleaseDeclared,
  PauseStatusChanged, ProtocolEvent, released, pause_changed, created, nonce_advanced, accepted,
  cancelled, expired, proposed, disputed, resolved, voided, claimed, refunded, kind_of,
}
use challenge_escrow_protoco.Projector.Types.{
  AnomalyCode, orphan_event, invalid_transition, release_conflict, MutableChallenge, Projection,
  Verdict, DecodedEvent,
}
use challenge_escrow_protoco.Projector.Shared.{overlaps_release_boundary, accords}
use challenge_escrow_protoco.Projector.Opening.{
  new_challenge, on_nonce_advanced, on_accepted, on_cancelled, on_expired,
}
use challenge_escrow_protoco.Projector.Deciding.{on_proposed, on_disputed}
use challenge_escrow_protoco.Projector.Resolving.{on_resolved, on_voided}
use challenge_escrow_protoco.Projector.Payouts.{on_claimed, on_refunded}

-- `eventChallengeId`
unfoldable pub event_challenge_id : ProtocolEvent → Option String
event_challenge_id (released e) = none
event_challenge_id (pause_changed e) = none
event_challenge_id (created e) = some e.challenge_id
event_challenge_id (nonce_advanced e) = some e.challenge_id
event_challenge_id (accepted e) = some e.challenge_id
event_challenge_id (cancelled e) = some e.challenge_id
event_challenge_id (expired e) = some e.challenge_id
event_challenge_id (proposed e) = some e.challenge_id
event_challenge_id (disputed e) = some e.challenge_id
event_challenge_id (resolved e) = some e.challenge_id
event_challenge_id (voided e) = some e.challenge_id
event_challenge_id (claimed e) = some e.challenge_id
event_challenge_id (refunded e) = some e.challenge_id

-- `addAnomaly`
abbrev pub add_anomaly : AnomalyCode → Option String → EventKind → Projection → Projection
add_anomaly code challenge_id kind p = record p {
  anomalies =
      p.anomalies ++ (record { code = code; challenge_id = challenge_id; kind = kind } ∷ []);
}

abbrev keep_first : Option ReleaseDeclared → ReleaseDeclared → Option ReleaseDeclared
keep_first none e = some e
keep_first (some r) e = some r

abbrev pub conflicting : Option ReleaseDeclared → Projection → Projection
conflicting none p = p
conflicting (some r) p = add_anomaly release_conflict none release_declared p

-- `ReleaseDeclared`
unfoldable pub on_released : ReleaseDeclared → Projection → Projection
on_released e p = record (conflicting p.release p) {
  release = keep_first p.release e;
  paused = some e.initial_paused;
}

abbrev pub unexpected : Option Bool → Bool → Bool
unexpected none previous = false
unexpected (some b) previous = not (bool_eq b previous)

-- `PauseStatusChanged`
unfoldable pub on_pause_changed : PauseStatusChanged → Projection → Projection
on_pause_changed e p =
    record (if unexpected p.paused e.previous_paused
      then add_anomaly invalid_transition none pause_status_changed p
      else p) { paused = some e.new_paused }

-- An event of a challenge that is not known.
unfoldable pub on_unknown : ℕ → String → ProtocolEvent → Projection → Projection
unfolding overlaps_release_boundary new_challenge
on_unknown block id (created e) p =
    if overlaps_release_boundary e.challenger_wallet p.release
    then add_anomaly invalid_transition (some id) challenge_created p
    else record p { challenges = insert id (new_challenge block e) p.challenges }
on_unknown block id event p = add_anomaly orphan_event (some id) (kind_of event) p

-- The fields that every later event of a challenge sets.
unfoldable pub noted : ℕ → EventKind → MutableChallenge → MutableChallenge
noted block kind c = record c {
  event_count = c.event_count + 1;
  last_event_block = block;
  last_event = kind;
}

abbrev pub with_report : Option AnomalyCode → String → EventKind → Projection → Projection
with_report none id kind p = p
with_report (some code) id kind p = add_anomaly code (some id) kind p

abbrev pub judged : String → EventKind → Verdict → Projection → Projection
judged id kind v p =
    with_report v.anomaly id kind (record p { challenges = insert id v.challenge p.challenges })

module _ (compute_entitlement_id : String → String → String) where
  -- The handler of an event, on a challenge that is known.
  unfoldable pub verdict : Option ReleaseDeclared → ProtocolEvent → MutableChallenge → Verdict
  unfolding on_nonce_advanced on_accepted on_cancelled on_expired on_proposed on_disputed
      on_resolved on_voided on_claimed on_refunded
  verdict release (nonce_advanced e) c = on_nonce_advanced c e
  verdict release (accepted e) c = on_accepted release c e
  verdict release (cancelled e) c = on_cancelled c e
  verdict release (expired e) c = on_expired c e
  verdict release (proposed e) c = on_proposed release c e
  verdict release (disputed e) c = on_disputed c e
  verdict release (resolved e) c = on_resolved release c e
  verdict release (voided e) c = on_voided release c e
  verdict release (claimed e) c = on_claimed compute_entitlement_id c e
  verdict release (refunded e) c = on_refunded compute_entitlement_id c e
  verdict release event c = accords c

  -- An event of a challenge that is known.
  unfoldable pub on_known : ℕ → String → ProtocolEvent → MutableChallenge → Projection → Projection
  unfolding verdict noted
  on_known block id (created e) c p = add_anomaly invalid_transition (some id) challenge_created p
  on_known block id event c p =
      judged id (kind_of event) (verdict p.release event (noted block (kind_of event) c)) p

  abbrev pub on_challenge :
      ℕ → String → ProtocolEvent → Option MutableChallenge → Projection → Projection
  on_challenge block id event none p = on_unknown block id event p
  on_challenge block id event (some c) p = on_known block id event c p

  abbrev pub on_event : ℕ → ProtocolEvent → Option String → Projection → Projection
  on_event block event none p = p
  on_event block event (some id) p = on_challenge block id event (lookup id p.challenges) p

  -- `projectEvent`, of an event in a block
  unfoldable pub project_in_block : ℕ → ProtocolEvent → Projection → Projection
  unfolding on_released on_pause_changed
  project_in_block block (released e) p = on_released e p
  project_in_block block (pause_changed e) p = on_pause_changed e p
  project_in_block block event p = on_event block event (event_challenge_id event) p

  unfoldable pub project_event : DecodedEvent → Projection → Projection
  unfolding project_in_block
  project_event d p = project_in_block d.block_number d.event p

  -- The loop over the decoded events.
  unfoldable pub project_events : List DecodedEvent → Projection → Projection
  project_events [] p = p
  project_events (d ∷ ds) p = project_events ds (project_event d p)
