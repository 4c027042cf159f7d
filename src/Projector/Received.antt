-- ===== src/Projector/Received.antt =====
-- tools/client/projector.ts: the amounts of the payouts that a whole projection records.
use challenge_escrow_protoco.Prelude.{
  ℕ, ◌+◌, ◌*◌, ◌≤◌, ◌==◌, String, ◌≡◌, refl, sym, subst, ap, ◌∙◌, inl, inr, Option, none, some,
  List, [], ◌∷◌, lookup, insert, lookup-insert, eq_iff, arith, Bool-cases, Option-cases,
  if◌then◌else◌, str_eq, AllEntries-lookup,
}
use challenge_escrow_protoco.Observer.Logs.{size}
use challenge_escrow_protoco.Events.Types.{
  EventKind, ChallengeCreated, ProtocolEvent, released, pause_changed, created, kind_of,
}
use challenge_escrow_protoco.Projector.Types.{
  ProjectionAnomaly, MutableChallenge, Projection, DecodedEvent,
}
use challenge_escrow_protoco.Projector.Shared.{terminal, overlaps_release_boundary}
use challenge_escrow_protoco.Projector.Opening.{new_challenge}
use challenge_escrow_protoco.Projector.Events.{
  on_released, on_pause_changed, on_unknown, noted, judged, verdict, on_known, on_event, unexpected,
  event_challenge_id, project_in_block, project_event, project_events,
}
use challenge_escrow_protoco.Projector.Record.{empty_projection, challenge_record}
use challenge_escrow_protoco.Projector.Diagram.{Evolves}
use challenge_escrow_protoco.Projector.Evolving.{verdict-Evolves}
use challenge_escrow_protoco.Projector.Continuing.{
  either, conflicting-challenges, with_report-challenges,
}
use challenge_escrow_protoco.Projector.Paying.{
  IsPaid, paid_out, deposited, each_in, state_kept, IsPaid-within,
}
use challenge_escrow_protoco.Projector.Receiving.{
  amount_of, Records, nothing, payout, verdict-Receives,
}
use challenge_escrow_protoco.Projector.Covered.{
  ArePaid, noted-IsPaid, project_in_block-ArePaid, project_events-ArePaid,
}

abbrev paid_by : Option MutableChallenge → ℕ
paid_by none = 0
paid_by (some c) = paid_out c

abbrev recorded : Option MutableChallenge → ℕ
recorded none = 0
recorded (some c) = size c.payout_ids

-- The amount of an event that a challenge records as a payout; 0 where it records none.
abbrev pub taken : Option MutableChallenge → Option MutableChallenge → ProtocolEvent → ℕ
taken before after event = if recorded before == recorded after then 0 else amount_of event

untaken : (o : Option MutableChallenge) (event : ProtocolEvent) → taken o o event ≡ 0
untaken o event = ground arith

paid_as_before :
    {kind : EventKind} {n d : MutableChallenge}
    → Evolves kind n d
    → IsPaid n
    → d.payout_ids ≡ n.payout_ids
    → paid_out d ≡ paid_out n
unfolding paid_out
paid_as_before {kind} {n} {d} grown right same = elim (Bool-cases (terminal n.state)) [
  | inl end ↦ rw (state_kept grown.moves end, grown.created_kept, same) refl
  | inr live ↦
      let empty : size n.payout_ids ≡ 0 = right.counted ∙ ap size (right.early live) in
      rw (same, empty) (omega arith)
]

paid_again :
    (n d : MutableChallenge) (id : String)
    → d.payout_ids ≡ id ∷ n.payout_ids
    → d.state ≡ n.state
    → d.created_event ≡ n.created_event
    → paid_out d ≡ (1 + size n.payout_ids) * each_in n.state n.created_event.stake_amount
unfolding paid_out
paid_again n d id ids es ec = rw (ids, es, ec) refl

paid_out-unfold :
    (n : MutableChallenge)
    → paid_out n ≡ size n.payout_ids * each_in n.state n.created_event.stake_amount
unfolding paid_out
paid_out-unfold n = refl

paid_more : (k unit amount : ℕ) → amount ≡ unit → (1 + k) * unit ≡ k * unit + amount
paid_more k unit amount e = grind arith

Records-paid :
    {kind : EventKind} {n d : MutableChallenge} (event : ProtocolEvent)
    → Evolves kind n d
    → IsPaid n
    → Records event n d
    → paid_out d ≡ paid_out n + taken (some n) (some d) event
Records-paid {kind} {n} {d} event grown right (nothing same) =
    let all : taken (some n) (some d) event ≡ 0 = rw same (ground arith) in
    let before = paid_as_before grown right same in omega (arith, all, before)
Records-paid {kind} {n} {d} event grown right (payout id ids es ec exact) =
    let all : taken (some n) (some d) event ≡ amount_of event = rw ids (ground arith) in
    let unit = each_in n.state n.created_event.stake_amount in
    paid_again n d id ids es ec
    ∙ paid_more (size n.payout_ids) unit (amount_of event) exact
    ∙ omega (arith, all, paid_out-unfold n)

-- The amounts of the payouts of an id, by the projections before and after each event.
Adds : String → ProtocolEvent → Projection → Projection → Type 0
Adds id event p q =
    paid_by (lookup id q.challenges)
    ≡ paid_by (lookup id p.challenges)
      + taken (lookup id p.challenges) (lookup id q.challenges) event

unchanged-Adds :
    (id : String) (event : ProtocolEvent) (p q : Projection)
    → q.challenges ≡ p.challenges
    → Adds id event p q
unfolding Adds
unchanged-Adds id event p q e =
    let none = untaken (lookup id p.challenges) event in rw e (omega (arith, none))

-- A write at an id is a payment of that id, and of no other.
insert-Adds :
    (id : String) (event : ProtocolEvent) (p q : Projection) (i : String) (d : MutableChallenge)
    → q.challenges ≡ insert i d p.challenges
    → paid_out d ≡ paid_by (lookup i p.challenges) + taken (lookup i p.challenges) (some d) event
    → Adds id event p q
unfolding Adds
insert-Adds id event p q i d wrote e = elim (Bool-cases (str_eq i id)) [
  | inl same ↦
      let here : i ≡ id = (eq_iff i id).0 same in
      rw (wrote, lookup-insert, same)
        (subst
          (λ j.
            paid_out d
            ≡ paid_by (lookup j p.challenges) + taken (lookup j p.challenges) (some d) event)
          here e)
  | inr other ↦
      let none = untaken (lookup id p.challenges) event in
      rw (wrote, lookup-insert, other) (omega (arith, none))
]

new_challenge-unpaid : (block : ℕ) (e : ChallengeCreated) → paid_out (new_challenge block e) ≡ 0
unfolding new_challenge paid_out
new_challenge-unpaid block e = omega arith

on_unknown-Adds :
    (id : String) (block : ℕ) (i : String) (event : ProtocolEvent) (p : Projection)
    → lookup i p.challenges ≡ none
    → Adds id event p (on_unknown block i event p)
unfolding on_unknown
on_unknown-Adds id block i (created e) p at =
    either (Adds id (created e) p) (overlaps_release_boundary e.challenger_wallet p.release) _ _
      (unchanged-Adds id (created e) p _ refl)
      (insert-Adds id (created e) p _ i (new_challenge block e) refl
        (rw at (new_challenge-unpaid block e)))
on_unknown-Adds id block i event p at = unchanged-Adds id event p _ refl

module _ (compute_entitlement_id : String → String → String) where
  judged-Adds :
      (id : String) (block : ℕ) (i : String) (event : ProtocolEvent) (c : MutableChallenge)
      (p : Projection)
      → IsPaid c
      → lookup i p.challenges ≡ some c
      → Adds id event p (
          judged i
            (kind_of event)
            (verdict compute_entitlement_id p.release event (noted block (kind_of event) c))
            p)
  unfolding noted paid_out
  judged-Adds id block i event c p right at =
      let n = noted block (kind_of event) c in
      let v = verdict compute_entitlement_id p.release event n in
      let q : Projection = record p { challenges = insert i v.challenge p.challenges } in
      let grown = verdict-Evolves compute_entitlement_id p.release event n in
      let records = verdict-Receives compute_entitlement_id p.release event n in
      let paid =
        Records-paid event grown.at (noted-IsPaid block (kind_of event) c right) records.at in
      insert-Adds id event p _ i v.challenge (with_report-challenges v.anomaly i (kind_of event) q)
        (rw at paid)

  on_known-Adds :
      (id : String) (block : ℕ) (i : String) (event : ProtocolEvent) (c : MutableChallenge)
      (p : Projection)
      → IsPaid c
      → lookup i p.challenges ≡ some c
      → Adds id event p (on_known compute_entitlement_id block i event c p)
  unfolding on_known
  on_known-Adds id block i (created e) c p right at = unchanged-Adds id (created e) p _ refl
  on_known-Adds id block i event c p right at = judged-Adds id block i event c p right at

  on_event-Adds :
      (id : String) (block : ℕ) (event : ProtocolEvent) (i : Option String) (p : Projection)
      → ArePaid p.challenges
      → Adds id event p (on_event compute_entitlement_id block event i p)
  on_event-Adds id block event none p h = unchanged-Adds id event p p refl
  on_event-Adds id block event (some i) p h = elim (Option-cases (lookup i p.challenges)) [
    | inl at ↦ rw at (on_unknown-Adds id block i event p at)
    | inr (c, at) ↦
        let right : IsPaid c = AllEntries-lookup (λ id c. IsPaid c) i p.challenges h at in
        rw at (on_known-Adds id block i event c p right at)
  ]

  project_in_block-Adds :
      (id : String) (block : ℕ) (event : ProtocolEvent) (p : Projection)
      → ArePaid p.challenges
      → Adds id event p (project_in_block compute_entitlement_id block event p)
  unfolding project_in_block on_released on_pause_changed
  project_in_block-Adds id block (released e) p h =
      unchanged-Adds id (released e) p _ (conflicting-challenges p.release p)
  project_in_block-Adds id block (pause_changed e) p h =
      either (λ q. Adds id (pause_changed e) p (record q { paused = some e.new_paused }))
        (unexpected p.paused e.previous_paused) _ _ (unchanged-Adds id (pause_changed e) p _ refl)
        (unchanged-Adds id (pause_changed e) p _ refl)
  project_in_block-Adds id block event p h =
      on_event-Adds id block event (event_challenge_id event) p h

  -- The sum of the amounts of the events that the challenge of an id records as payouts, in the loop.
  unfoldable pub received : String → List DecodedEvent → Projection → ℕ
  received id [] p = 0
  received id (d ∷ ds) p =
      let q = project_event compute_entitlement_id d p in
      taken (lookup id p.challenges) (lookup id q.challenges) d.event + received id ds q

  received_lem :
      (id : String) (ds : List DecodedEvent) (p : Projection)
      → ArePaid p.challenges
      → paid_by (lookup id (project_events compute_entitlement_id ds p).challenges)
        ≡ paid_by (lookup id p.challenges) + received id ds p
  unfolding project_events project_event received Adds
  received_lem id [] p h = omega arith
  received_lem id (d ∷ ds) p h =
      let q = project_in_block compute_entitlement_id d.block_number d.event p in
      let now = project_in_block-Adds id d.block_number d.event p h in
      let later =
        received_lem id ds q
          (project_in_block-ArePaid compute_entitlement_id d.block_number d.event p h) in
      omega (arith, now, later)

  -- Whatever events are projected from nothing, the amounts of the payout events that a challenge
  -- records come to no more than its participants have deposited: twice the stake, or the stake where no
  -- one accepted. They come to the amount due in its state for each payout that its record counts; each
  -- wallet is paid once and is one that the state pays, and before its end nothing is paid.
  pub project_events-received :
      (ds : List DecodedEvent) (anomalies : List ProjectionAnomaly) (id : String)
      (c : MutableChallenge)
      → lookup id (project_events compute_entitlement_id ds (empty_projection anomalies)).challenges
        ≡ some c
      → (received id ds (empty_projection anomalies) ≤ deposited c)
        × (received id ds (empty_projection anomalies)
            ≡ (challenge_record c).payout_count * each_in c.state c.created_event.stake_amount)
        × IsPaid c
  unfolding challenge_record paid_out
  project_events-received ds anomalies id c at =
      let start = empty_projection anomalies in
      let all = project_events-ArePaid compute_entitlement_id ds start tt in
      let right : IsPaid c = AllEntries-lookup (λ id c. IsPaid c) id _ all at in
      let sum : paid_out c ≡ received id ds start =
        sym (ap paid_by at) ∙ received_lem id ds start tt ∙ (omega arith) in
      let within = IsPaid-within c right in (omega (arith, sum, within), sym sum, right)
