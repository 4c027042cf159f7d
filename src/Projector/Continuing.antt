-- ===== src/Projector/Continuing.antt =====
-- tools/client/projector.ts: what a run over events does to the challenges that it knows.
use challenge_escrow_protoco.Prelude.{
  ℕ, String, ◌≡◌, refl, sym, subst, ◌∙◌, Bool, true, false, ◌⊎◌, inl, inr, Option, none, some, List,
  [], ◌∷◌, Dict, lookup, insert, lookup-insert, str_eq, eq_iff, Bool-cases, Option-cases, includes,
  if◌then◌else◌,
}
use challenge_escrow_protoco.Model.Types.{State}
use challenge_escrow_protoco.Events.Types.{
  EventKind, ReleaseDeclared, ProtocolEvent, released, pause_changed, created, kind_of,
}
use challenge_escrow_protoco.Projector.Types.{
  AnomalyCode, MutableChallenge, Projection, DecodedEvent,
}
use challenge_escrow_protoco.Projector.Shared.{terminal, overlaps_release_boundary}
use challenge_escrow_protoco.Projector.Opening.{new_challenge}
use challenge_escrow_protoco.Projector.Events.{
  conflicting, on_released, on_pause_changed, on_unknown, noted, with_report, judged, verdict,
  on_known, on_event, unexpected, project_in_block, project_event, project_events,
}
use challenge_escrow_protoco.Projector.Diagram.{Move, Pays, Evolves, Move-terminal}
use challenge_escrow_protoco.Projector.Evolving.{verdict-Evolves}

-- Some moves of the diagram, one after the other.
pub data Reaches : State → State → Type 0 where
  there : (s : State) → Reaches s s
  by : {s t u : State} {kind : EventKind} → Move s kind t → Reaches t u → Reaches s u

-- What a run leaves of a challenge.
pub record Continues (c d : MutableChallenge) : Type 0 where
  pub reached : Reaches c.state d.state
  pub created_kept : d.created_event ≡ c.created_event
  pub paid_kept :
      (w : String) → includes c.payout_wallets w ≡ true → includes d.payout_wallets w ≡ true

Reaches-trans : {s t u : State} → Reaches s t → Reaches t u → Reaches s u
Reaches-trans (there s) r = r
Reaches-trans (by m q) r = by m (Reaches-trans q r)

-- Nothing is reached from a terminal state but that state.
pub Reaches-terminal : {s t : State} → Reaches s t → terminal s ≡ true → t ≡ s
Reaches-terminal (there s) e = refl
Reaches-terminal (by m q) e = cc (Move-terminal m)

trans : {c d e : MutableChallenge} → Continues c d → Continues d e → Continues c e
trans h k = record {
  reached = Reaches-trans h.reached k.reached;
  created_kept = k.created_kept ∙ h.created_kept;
  paid_kept = λ w p. k.paid_kept w (h.paid_kept w p);
}

unchanged : (c : MutableChallenge) → Continues c c
unchanged c = record { reached = there c.state; created_kept = refl; paid_kept = λ w p. p }

reached_by : {s t : State} {kind : EventKind} → (t ≡ s) ⊎ Move s kind t → Reaches s t
reached_by {s} (inl e) = subst (Reaches s) (sym e) (there s)
reached_by (inr m) = by m (there _)

pays-kept :
    {c d : MutableChallenge}
    → Pays c d
    → (w : String) → includes c.payout_wallets w ≡ true
    → includes d.payout_wallets w ≡ true
unfolding includes
pays-kept (Pays.unpaid ei ew) w h = rw ew h
pays-kept (Pays.paid id wallet end es payee new ei ew) w h = elim (Bool-cases (str_eq wallet w)) [
  | inl e ↦ rw (ew, e) refl
  | inr e ↦ rw (ew, e) h
]

continues : {kind : EventKind} {c d : MutableChallenge} → Evolves kind c d → Continues c d
continues h = record {
  reached = reached_by h.moves;
  created_kept = h.created_kept;
  paid_kept = pays-kept h.pays;
}

-- A challenge that continues one stands at an id.
abbrev pub Stands : String → MutableChallenge → Dict MutableChallenge → Type 0
Stands id c m = (d : MutableChallenge) × (lookup id m ≡ some d) × Continues c d

kept :
    (id : String) (c : MutableChallenge) (m : Dict MutableChallenge)
    → lookup id m ≡ some c
    → Stands id c m
kept id c m h = (c, h, unchanged c)

pub conflicting-challenges :
    (r : Option ReleaseDeclared) (p : Projection) → (conflicting r p).challenges ≡ p.challenges
conflicting-challenges none p = refl
conflicting-challenges (some r) p = refl

pub with_report-challenges :
    (code : Option AnomalyCode) (id : String) (kind : EventKind) (p : Projection)
    → (with_report code id kind p).challenges ≡ p.challenges
with_report-challenges none id kind p = refl
with_report-challenges (some code) id kind p = refl

-- A challenge is written at an id, in place of one that it continues.
stored :
    (i id : String) (old new c : MutableChallenge) (m : Dict MutableChallenge)
    → lookup i m ≡ some old
    → lookup id m ≡ some c
    → Continues old new
    → Stands id c (insert i new m)
stored i id old new c m at h k = elim (Bool-cases (str_eq i id)) [
  | inl e ↦
      let same_id : i ≡ id = (eq_iff i id).0 e in
      let same_old : old ≡ c = cc (same_id, at, h) in
      (new, rw (lookup-insert, e) refl, subst (λ x. Continues x new) same_old k)
  | inr e ↦ (c, rw (lookup-insert, e) h, unchanged c)
]

-- Of a conditional projection, where both are as wanted.
pub either {ℓ} :
    (P : Projection → Type ℓ) (b : Bool) (x y : Projection) → P x → P y → P (if b then x else y)
either P true x y hx hy = hx
either P false x y hx hy = hy

new_id :
    (i id : String) (new c : MutableChallenge) (m : Dict MutableChallenge)
    → lookup i m ≡ none
    → lookup id m ≡ some c
    → Stands id c (insert i new m)
new_id i id new c m at h = elim (Bool-cases (str_eq i id)) [
  | inl e ↦ let same_id : i ≡ id = (eq_iff i id).0 e in absurd cc
  | inr e ↦ (c, rw (lookup-insert, e) h, unchanged c)
]

on_unknown-Stands :
    (block : ℕ) (i id : String) (event : ProtocolEvent) (c : MutableChallenge) (p : Projection)
    → lookup i p.challenges ≡ none
    → lookup id p.challenges ≡ some c
    → Stands id c (on_unknown block i event p).challenges
unfolding on_unknown
on_unknown-Stands block i id (created e) c p at h =
    either (λ q. Stands id c q.challenges) (overlaps_release_boundary e.challenger_wallet p.release)
      _ _ (kept id c _ h) (new_id i id (new_challenge block e) c _ at h)
on_unknown-Stands block i id _ c p at h = kept id c _ h

noted-Continues :
    (block : ℕ) (kind : EventKind) (c : MutableChallenge) → Continues c (noted block kind c)
unfolding noted
noted-Continues block kind c = record {
  reached = there c.state;
  created_kept = refl;
  paid_kept = λ w p. p;
}

module _ (compute_entitlement_id : String → String → String) where
  judged-Stands :
      (block : ℕ) (i id : String) (event : ProtocolEvent) (old c : MutableChallenge)
      (p : Projection)
      → lookup i p.challenges ≡ some old
      → lookup id p.challenges ≡ some c
      → Stands id c
          (judged i
            (kind_of event)
            (verdict compute_entitlement_id p.release event (noted block (kind_of event) old))
            p).challenges
  judged-Stands block i id event old c p at h =
      let v = verdict compute_entitlement_id p.release event (noted block (kind_of event) old) in
      let grown =
        verdict-Evolves compute_entitlement_id p.release event (noted block (kind_of event) old) in
      let goes : Continues old v.challenge =
        trans (noted-Continues block (kind_of event) old) (continues grown.at) in
      rw
        (with_report-challenges v.anomaly i (kind_of event)
          (record p { challenges = insert i v.challenge p.challenges }))
        (stored i id old v.challenge c p.challenges at h goes)

  on_known-Stands :
      (block : ℕ) (i id : String) (event : ProtocolEvent) (old c : MutableChallenge)
      (p : Projection)
      → lookup i p.challenges ≡ some old
      → lookup id p.challenges ≡ some c
      → Stands id c (on_known compute_entitlement_id block i event old p).challenges
  unfolding on_known
  on_known-Stands block i id (created e) old c p at h = kept id c _ h
  on_known-Stands block i id event old c p at h = judged-Stands block i id event old c p at h

  on_event-Stands :
      (block : ℕ) (id : String) (event : ProtocolEvent) (c : MutableChallenge) (p : Projection)
      (i : Option String)
      → lookup id p.challenges ≡ some c
      → Stands id c (on_event compute_entitlement_id block event i p).challenges
  on_event-Stands block id event c p none h = kept id c _ h
  on_event-Stands block id event c p (some i) h = elim (Option-cases (lookup i p.challenges)) [
    | inl at ↦ rw at (on_unknown-Stands block i id event c p at h)
    | inr (old, at) ↦ rw at (on_known-Stands block i id event old c p at h)
  ]

  project_in_block-Stands :
      (block : ℕ) (event : ProtocolEvent) (id : String) (c : MutableChallenge) (p : Projection)
      → lookup id p.challenges ≡ some c
      → Stands id c (project_in_block compute_entitlement_id block event p).challenges
  unfolding project_in_block on_released on_pause_changed
  project_in_block-Stands block (released e) id c p h =
      rw (conflicting-challenges p.release p) (kept id c _ h)
  project_in_block-Stands block (pause_changed e) id c p h =
      either (λ q. Stands id c q.challenges) (unexpected p.paused e.previous_paused) _ _
        (kept id c _ h) (kept id c _ h)
  project_in_block-Stands block event id c p h = on_event-Stands block id event c p _ h

  -- A challenge that is known stays known over any events: its state moves along the diagram, from a
  -- terminal state it does not move, its creation is not rewritten, and no wallet that was paid is
  -- forgotten.
  pub project_events-Continues :
      (ds : List DecodedEvent) (id : String) (c : MutableChallenge) (p : Projection)
      → lookup id p.challenges ≡ some c
      → (d : MutableChallenge) × (lookup id (project_events compute_entitlement_id ds p).challenges
          ≡ some d)
        × Continues c d
        × (terminal c.state ≡ true → d.state ≡ c.state)
  unfolding project_events project_event
  project_events-Continues [] id c p h = (c, h, unchanged c, λ e. refl)
  project_events-Continues (x ∷ ds) id c p h =
      let (d, at, goes) = project_in_block-Stands x.block_number x.event id c p h in
      let (e, found, on, end) = project_events-Continues ds id d _ at in
      let whole = trans goes on in (e, found, whole, λ t. Reaches-terminal whole.reached t)
