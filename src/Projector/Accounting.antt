-- ===== src/Projector/Accounting.antt =====
-- tools/client/projector.ts: a projection without anomalies accounts for every event.
use challenge_escrow_protoco.Prelude.{
  ℕ, ◌+◌, ◌≤◌, String, ◌≡◌, refl, ◌∙◌, Bool, true, false, not, ◌||◌, inl, inr, Option, none, some,
  List, [], ◌∷◌, ◌++◌, Dict, lookup, insert, lookup-insert, AllEntries, AllEntries-lookup, str_eq,
  eq_iff, str_eq_comm, holds_text, is_null, arith, Bool-cases, Option-cases, if◌then◌else◌,
}
use challenge_escrow_protoco.Observer.Logs.{size}
use challenge_escrow_protoco.Events.Types.{
  EventKind, ReleaseDeclared, ProtocolEvent, released, pause_changed, created, kind_of,
}
use challenge_escrow_protoco.Projector.Types.{
  AnomalyCode, ProjectionAnomaly, MutableChallenge, Projection, DecodedEvent, consistent,
}
use challenge_escrow_protoco.Projector.Shared.{terminal, overlaps_release_boundary}
use challenge_escrow_protoco.Projector.Opening.{new_challenge}
use challenge_escrow_protoco.Projector.Events.{
  event_challenge_id, conflicting, on_released, on_pause_changed, on_unknown, noted, with_report,
  judged, verdict, on_known, on_event, unexpected, project_in_block, project_event, project_events,
}
use challenge_escrow_protoco.Projector.Record.{
  empty_projection, first_anomalies, challenge_record, challenge_records, any_open, status_of,
}
use challenge_escrow_protoco.Projector.Evolving.{verdict-Evolves}
use challenge_escrow_protoco.Projector.Continuing.{conflicting-challenges}

abbrev count_in : Option MutableChallenge → ℕ
count_in none = 0
count_in (some c) = c.event_count

-- The events that a projection has counted for an id.
unfoldable pub counted : String → Projection → ℕ
counted id p = count_in (lookup id p.challenges)

abbrev one_if : Bool → ℕ
one_if true = 1
one_if false = 0

-- How many events are of a challenge.
unfoldable pub events_of : String → List DecodedEvent → ℕ
events_of id [] = 0
events_of id (d ∷ ds) = one_if (holds_text id (event_challenge_id d.event)) + events_of id ds

size-push :
    (xs : List ProjectionAnomaly) (x : ProjectionAnomaly) → size (xs ++ (x ∷ [])) ≡ size xs + 1
size-push [] x = refl
size-push (y ∷ xs) x = omega (arith, size-push xs x)

-- What a step from one projection to another does to the anomalies and, if it adds none, to the count of
-- an id.
record Accounts (id : String) (more : ℕ) (p q : Projection) : Type 0 where
  grows : size p.anomalies ≤ size q.anomalies
  counts : size q.anomalies ≤ size p.anomalies → counted id q ≡ counted id p + more

flagged :
    (id : String) (more : ℕ) (p q : Projection) (x : ProjectionAnomaly)
    → q.anomalies ≡ p.anomalies ++ (x ∷ [])
    → Accounts id more p q
flagged id more p q x e =
    let longer : size q.anomalies ≡ size p.anomalies + 1 = rw e (size-push p.anomalies x) in
    record { grows = omega arith; counts = λ h. absurd (omega arith) }

silent :
    (id : String) (p q : Projection)
    → q.anomalies ≡ p.anomalies
    → q.challenges ≡ p.challenges
    → Accounts id 0 p q
unfolding counted
silent id p q ea ec = record { grows = rw ea (omega arith); counts = λ h. rw ec (omega arith) }

-- Of a conditional projection, by the ways the test may come out.
split {ℓ} :
    (P : Projection → Type ℓ) (b : Bool) (x y : Projection)
    → (b ≡ true → P x)
    → (b ≡ false → P y)
    → P (if b then x else y)
split P true x y hx hy = hx refl
split P false x y hx hy = hy refl

-- A challenge is written at an id, with one event more than was counted for it.
written :
    (i id : String) (new : MutableChallenge) (p q : Projection)
    → new.event_count ≡ count_in (lookup i p.challenges) + 1
    → q.anomalies ≡ p.anomalies
    → q.challenges ≡ insert i new p.challenges
    → Accounts id (one_if (str_eq id i)) p q
unfolding counted
written i id new p q en ea ec = record {
  grows = rw ea (omega arith);
  counts = λ h.
      rw (ec, lookup-insert, str_eq_comm i id)
        (elim (Bool-cases (str_eq id i)) [
          | inl e ↦ let same_id : id ≡ i = (eq_iff id i).0 e in rw (e, same_id) en
          | inr e ↦ rw e (omega arith)
        ]);
}

on_unknown-Accounts :
    (id : String) (block : ℕ) (i : String) (event : ProtocolEvent) (p : Projection)
    → lookup i p.challenges ≡ none
    → Accounts id (one_if (str_eq id i)) p (on_unknown block i event p)
unfolding on_unknown new_challenge
on_unknown-Accounts id block i (created e) p at =
    split (Accounts id (one_if (str_eq id i)) p)
      (overlaps_release_boundary e.challenger_wallet p.release) _ _ (λ _. flagged id _ p _ _ refl)
      (λ _. written i id (new_challenge block e) p _ (rw at refl) refl refl)
on_unknown-Accounts id block i _ p at = flagged id _ p _ _ refl

conflicting-Accounts :
    (id : String) (r : Option ReleaseDeclared) (p q : Projection)
    → q.anomalies ≡ (conflicting r p).anomalies
    → q.challenges ≡ p.challenges
    → Accounts id 0 p q
conflicting-Accounts id none p q ea ec = silent id p q ea ec
conflicting-Accounts id (some r) p q ea ec = flagged id 0 p q _ ea

-- What the status "consistent" says of a projection.
consistent-says :
    (p : Projection)
    → status_of p ≡ consistent
    → (size p.anomalies ≤ 0)
      × (is_null p.release ≡ false)
      × (any_open (challenge_records p.challenges) ≡ false)
unfolding status_of
consistent-says p e = ground arith

both_false : (a b : Bool) → (not a || b) ≡ false → (a ≡ true) × (b ≡ false)
both_false true b h = (refl, h)
both_false false b h = cc

all_ended :
    (m : Dict MutableChallenge)
    → any_open (challenge_records m) ≡ false
    → AllEntries (λ id c. terminal c.state ≡ true) m
unfolding any_open challenge_records challenge_record
all_ended [] h = tt
all_ended ((j, d) ∷ m) h = let (end, rest) = both_false _ _ h in (end, all_ended m rest)

nothing_counted : (id : String) (xs : List ProjectionAnomaly) → counted id (empty_projection xs) ≡ 0
unfolding counted
nothing_counted id xs = refl

module _ (compute_entitlement_id : String → String → String) where
  with_report-Accounts :
      (id i : String) (kind : EventKind) (new : MutableChallenge) (code : Option AnomalyCode)
      (p : Projection)
      → new.event_count ≡ count_in (lookup i p.challenges) + 1
      → Accounts id
          (one_if (str_eq id i))
          p
          (with_report code i kind (record p { challenges = insert i new p.challenges }))
  with_report-Accounts id i kind new none p en = written i id new p _ en refl refl
  with_report-Accounts id i kind new (some code) p en = flagged id _ p _ _ refl

  judged-Accounts :
      (id : String) (block : ℕ) (i : String) (event : ProtocolEvent) (c : MutableChallenge)
      (p : Projection)
      → lookup i p.challenges ≡ some c
      → Accounts id (one_if (str_eq id i)) p (
          judged i
            (kind_of event)
            (verdict compute_entitlement_id p.release event (noted block (kind_of event) c))
            p)
  unfolding noted
  judged-Accounts id block i event c p at =
      let n = noted block (kind_of event) c in
      let v = verdict compute_entitlement_id p.release event n in
      let grown = verdict-Evolves compute_entitlement_id p.release event n in
      with_report-Accounts id i (kind_of event) v.challenge v.anomaly p
        (grown.at.count_kept ∙ rw at refl)

  on_known-Accounts :
      (id : String) (block : ℕ) (i : String) (event : ProtocolEvent) (c : MutableChallenge)
      (p : Projection)
      → lookup i p.challenges ≡ some c
      → Accounts id (one_if (str_eq id i)) p (on_known compute_entitlement_id block i event c p)
  unfolding on_known
  on_known-Accounts id block i (created e) c p at = flagged id _ p _ _ refl
  on_known-Accounts id block i event c p at = judged-Accounts id block i event c p at

  on_event-Accounts :
      (id : String) (block : ℕ) (event : ProtocolEvent) (i : Option String) (p : Projection)
      → Accounts id (one_if (holds_text id i)) p (on_event compute_entitlement_id block event i p)
  on_event-Accounts id block event none p = silent id p p refl refl
  on_event-Accounts id block event (some i) p = elim (Option-cases (lookup i p.challenges)) [
    | inl at ↦ rw at (on_unknown-Accounts id block i event p at)
    | inr (c, at) ↦ rw at (on_known-Accounts id block i event c p at)
  ]

  project_in_block-Accounts :
      (id : String) (block : ℕ) (event : ProtocolEvent) (p : Projection)
      → Accounts id
          (one_if (holds_text id (event_challenge_id event)))
          p
          (project_in_block compute_entitlement_id block event p)
  unfolding project_in_block event_challenge_id on_released on_pause_changed
  project_in_block-Accounts id block (released e) p =
      conflicting-Accounts id p.release p _ refl (conflicting-challenges p.release p)
  project_in_block-Accounts id block (pause_changed e) p =
      split (λ q. Accounts id 0 p (record q { paused = some e.new_paused }))
        (unexpected p.paused e.previous_paused) _ _ (λ _. flagged id 0 p _ _ refl)
        (λ _. silent id p _ refl refl)
  project_in_block-Accounts id block event p =
      on_event-Accounts id block event (event_challenge_id event) p

  project_events-grows :
      (ds : List DecodedEvent) (p : Projection)
      → size p.anomalies ≤ size (project_events compute_entitlement_id ds p).anomalies
  unfolding project_events project_event
  project_events-grows [] p = omega arith
  project_events-grows (d ∷ ds) p =
      let step = project_in_block-Accounts "" d.block_number d.event p in
      let rest =
        project_events-grows ds
          (project_in_block compute_entitlement_id d.block_number d.event p) in
      omega (arith, step.grows, rest)

  project_events-counted :
      (id : String) (ds : List DecodedEvent) (p : Projection)
      → size (project_events compute_entitlement_id ds p).anomalies ≤ size p.anomalies
      → counted id (project_events compute_entitlement_id ds p) ≡ counted id p + events_of id ds
  unfolding project_events project_event events_of
  project_events-counted id [] p h = omega arith
  project_events-counted id (d ∷ ds) p h =
      let step = project_in_block-Accounts id d.block_number d.event p in
      let q = project_in_block compute_entitlement_id d.block_number d.event p in
      let longer = project_events-grows ds q in
      let now = step.counts (omega (arith, longer)) in
      let later = project_events-counted id ds q (omega (arith, step.grows)) in omega arith

  -- Where the status of a projection is "consistent", its release is declared, every challenge is in a
  -- terminal state, and it has counted for every id exactly the events that are of it.
  pub project_events-accounted :
      (ds : List DecodedEvent)
      → let p = project_events compute_entitlement_id ds (empty_projection (first_anomalies ds)) in
        status_of p ≡ consistent
        → (is_null p.release ≡ false)
          × ((id : String) (c : MutableChallenge)
              → lookup id p.challenges ≡ some c
              → terminal c.state ≡ true)
          × ((id : String) → counted id p ≡ events_of id ds)
  project_events-accounted ds e =
      let p = project_events compute_entitlement_id ds (empty_projection (first_anomalies ds)) in
      let (clean, declared, ended) = consistent-says p e in
      (
        declared,
        λ id c at.
            AllEntries-lookup (λ id c. terminal c.state ≡ true) id p.challenges
              (all_ended p.challenges ended) at,
        λ id.
            let all =
              project_events-counted id ds (empty_projection (first_anomalies ds)) (omega arith) in
            omega (arith, all, nothing_counted id (first_anomalies ds)),
      )
