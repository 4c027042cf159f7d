-- ===== src/Projector/Covered.antt =====
-- tools/client/projector.ts: the payouts of a whole projection.
use challenge_escrow_protoco.Prelude.{
  ℕ, String, refl, inl, inr, Option, none, some, List, [], ◌∷◌, Dict, lookup, insert, AllEntries,
  AllEntries-lookup, AllEntries-insert, Option-cases,
}
use challenge_escrow_protoco.Events.Types.{
  EventKind, ChallengeCreated, ProtocolEvent, released, pause_changed, created, kind_of,
}
use challenge_escrow_protoco.Projector.Types.{MutableChallenge, Projection, DecodedEvent}
use challenge_escrow_protoco.Projector.Shared.{overlaps_release_boundary}
use challenge_escrow_protoco.Projector.Opening.{new_challenge}
use challenge_escrow_protoco.Projector.Events.{
  on_released, on_pause_changed, on_unknown, noted, judged, verdict, on_known, on_event, unexpected,
  project_in_block, project_event, project_events,
}
use challenge_escrow_protoco.Projector.Evolving.{verdict-Evolves}
use challenge_escrow_protoco.Projector.Continuing.{
  either, conflicting-challenges, with_report-challenges,
}
use challenge_escrow_protoco.Projector.Payees.{payees}
use challenge_escrow_protoco.Projector.Paying.{IsPaid, Evolves-IsPaid}

-- The payouts of every challenge are right.
abbrev pub ArePaid : Dict MutableChallenge → Type 0
ArePaid = AllEntries (λ id c. IsPaid c)

new_challenge-IsPaid : (block : ℕ) (e : ChallengeCreated) → IsPaid (new_challenge block e)
unfolding new_challenge
new_challenge-IsPaid block e = record {
  early = λ t. refl;
  payees_only = refl;
  once = refl;
  counted = refl;
}

pub noted-IsPaid :
    (block : ℕ) (kind : EventKind) (c : MutableChallenge) → IsPaid c → IsPaid (noted block kind c)
unfolding noted payees
noted-IsPaid block kind c p = record {
  early = p.early;
  payees_only = p.payees_only;
  once = p.once;
  counted = p.counted;
}

on_unknown-ArePaid :
    (block : ℕ) (id : String) (event : ProtocolEvent) (p : Projection)
    → ArePaid p.challenges
    → ArePaid (on_unknown block id event p).challenges
unfolding on_unknown
on_unknown-ArePaid block id (created e) p h =
    either (λ q. ArePaid q.challenges) (overlaps_release_boundary e.challenger_wallet p.release) _ _
      h
      (AllEntries-insert (λ id c. IsPaid c) id (new_challenge block e) p.challenges
        (new_challenge-IsPaid block e) h)
on_unknown-ArePaid block id _ p h = h

module _ (compute_entitlement_id : String → String → String) where
  judged-ArePaid :
      (block : ℕ) (id : String) (event : ProtocolEvent) (c : MutableChallenge) (p : Projection)
      → IsPaid c
      → ArePaid p.challenges
      → ArePaid
          (judged id
            (kind_of event)
            (verdict compute_entitlement_id p.release event (noted block (kind_of event) c))
            p).challenges
  judged-ArePaid block id event c p right h =
      let n = noted block (kind_of event) c in
      let v = verdict compute_entitlement_id p.release event n in
      let grown = verdict-Evolves compute_entitlement_id p.release event n in
      let q : Projection = record p { challenges = insert id v.challenge p.challenges } in
      rw (with_report-challenges v.anomaly id (kind_of event) q) (
        AllEntries-insert (λ id c. IsPaid c) id v.challenge p.challenges
          (Evolves-IsPaid grown.at (noted-IsPaid block (kind_of event) c right)) h)

  on_known-ArePaid :
      (block : ℕ) (id : String) (event : ProtocolEvent) (c : MutableChallenge) (p : Projection)
      → IsPaid c
      → ArePaid p.challenges
      → ArePaid (on_known compute_entitlement_id block id event c p).challenges
  unfolding on_known
  on_known-ArePaid block id (created e) c p right h = h
  on_known-ArePaid block id event c p right h = judged-ArePaid block id event c p right h

  on_event-ArePaid :
      (block : ℕ) (event : ProtocolEvent) (i : Option String) (p : Projection)
      → ArePaid p.challenges
      → ArePaid (on_event compute_entitlement_id block event i p).challenges
  on_event-ArePaid block event none p h = h
  on_event-ArePaid block event (some id) p h = elim (Option-cases (lookup id p.challenges)) [
    | inl at ↦ rw at (on_unknown-ArePaid block id event p h)
    | inr (c, at) ↦ rw at (
        on_known-ArePaid block id event c p
          (AllEntries-lookup (λ id c. IsPaid c) id p.challenges h at) h)
  ]

  pub project_in_block-ArePaid :
      (block : ℕ) (event : ProtocolEvent) (p : Projection)
      → ArePaid p.challenges
      → ArePaid (project_in_block compute_entitlement_id block event p).challenges
  unfolding project_in_block on_released on_pause_changed
  project_in_block-ArePaid block (released e) p h = rw (conflicting-challenges p.release p) h
  project_in_block-ArePaid block (pause_changed e) p h =
      either (λ q. ArePaid q.challenges) (unexpected p.paused e.previous_paused) _ _ h h
  project_in_block-ArePaid block event p h = on_event-ArePaid block event _ p h

  pub project_events-ArePaid :
      (ds : List DecodedEvent) (p : Projection)
      → ArePaid p.challenges
      → ArePaid (project_events compute_entitlement_id ds p).challenges
  unfolding project_events project_event
  project_events-ArePaid [] p h = h
  project_events-ArePaid (d ∷ ds) p h =
      project_events-ArePaid ds _ (project_in_block-ArePaid d.block_number d.event p h)
