-- ===== src/Quorum/Agreement.antt =====
-- What a report of tools/client/rpc.ts says of its endpoints.
use challenge_escrow_protoco.Prelude.{
  ℕ, ◌+◌, ◌*◌, ◌≤◌, ◌<◌, ◌≡◌, ◌↔◌, refl, Bool, List, [], ◌∷◌, String, arith, subst,
}
use challenge_escrow_protoco.Observer.Types.{Header}
use challenge_escrow_protoco.Observer.Logs.{size}
use challenge_escrow_protoco.Quorum.Types.{
  Tag, latest, safe, finalized, Endpoint, EndpointSnapshot, Status, agree, conflicted, unavailable,
  Report, Outcome, reported, thrown,
}
use challenge_escrow_protoco.Quorum.Snapshot.{snapshot}
use challenge_escrow_protoco.Quorum.Head.{quorum_head}
use challenge_escrow_protoco.Quorum.Report.{
  insert_endpoint, snapshots, overall, report_on, compare_rpc_quorum,
}
use challenge_escrow_protoco.Quorum.Counting.{support}
use challenge_escrow_protoco.Quorum.Majority.{quorum_head-agrees, quorum_head-support}

overall-agree :
    (a b c : Status) → (overall a b c ≡ agree) ↔ ((a ≡ agree) × (b ≡ agree) × (c ≡ agree))
unfolding overall
overall-agree agree agree agree = (λ e. (refl, refl, refl), λ h. refl)
overall-agree agree agree conflicted = (λ e. cc, λ h. h.2)
overall-agree agree agree unavailable = (λ e. cc, λ h. h.2)
overall-agree agree conflicted c = (λ e. cc, λ h. cc)
overall-agree agree unavailable c = ground arith
overall-agree conflicted b c = (λ e. cc, λ h. cc)
overall-agree unavailable b c = ground arith

size-snapshots :
    (by_name : String → String → Bool) (es : List Endpoint) → size (snapshots by_name es) ≡ size es
unfolding snapshots
size-snapshots by_name [] = refl
size-snapshots by_name (e ∷ es) =
    omega (arith, inserted (snapshots by_name es), size-snapshots by_name es)
  where
    inserted :
        (fs : List EndpointSnapshot) → size (insert_endpoint by_name (snapshot e) fs) ≡ size fs + 1
    inserted [] = refl
    inserted (f ∷ fs) = ground (arith, inserted fs)

-- As many endpoints as the threshold report one block under each tag, without an error.
abbrev pub Agrees : List EndpointSnapshot → ℕ → Type 0
Agrees endpoints threshold = (tag : Tag) → (b : Header) × (threshold ≤ support tag b endpoints)

abbrev DecidesReport : ℕ → Outcome Report → Type 0
DecidesReport threshold (thrown e) = Unit
DecidesReport threshold (reported r) = (r.status ≡ agree) ↔ Agrees r.endpoints threshold

report_on-Agrees :
    (by_block : Header → Header → Bool) (endpoints : List EndpointSnapshot) (threshold : ℕ)
    → size endpoints < threshold * 2
    → ((report_on by_block endpoints threshold).status ≡ agree) ↔ Agrees endpoints threshold
report_on-Agrees by_block endpoints threshold majority = (
  (λ e.
      let (a, b, c) = (overall-agree _ _ _).0 e in
      λ tag. elim tag as (λ k. (b : Header) × (threshold ≤ support k b endpoints)) [
        | latest ↦ supported latest a
        | safe ↦ supported safe b
        | finalized ↦ supported finalized c
      ]),
  (λ h. (overall-agree _ _ _).1 (agreed h latest, agreed h safe, agreed h finalized)),
)
  where
    supported :
        (tag : Tag)
        → (quorum_head by_block endpoints tag threshold).status ≡ agree
        → (b : Header) × (threshold ≤ support tag b endpoints)
    supported tag e =
        let (h, x, y) = quorum_head-support by_block endpoints tag threshold e in (h, y)

    agreed :
        Agrees endpoints threshold
        → (tag : Tag) → (quorum_head by_block endpoints tag threshold).status ≡ agree
    agreed h tag =
        let (b, enough) = h tag in
        let (x, y, z, w) = quorum_head-agrees by_block endpoints tag threshold b majority enough in
        y

-- A report that `compareRpcQuorum` returns has the status "agree" exactly where, under each of the
-- three tags, as many endpoints as the threshold report one block without an error; whatever the
-- orders of names and blocks are.
pub compare_rpc_quorum-agree :
    (by_name : String → String → Bool) (by_block : Header → Header → Bool)
    (providers : List Endpoint) (threshold : ℕ) (r : Report)
    → compare_rpc_quorum by_name by_block providers threshold ≡ reported r
    → (r.status ≡ agree) ↔ Agrees r.endpoints threshold
unfolding compare_rpc_quorum
compare_rpc_quorum-agree by_name by_block providers threshold r e =
    let facts : (size providers < threshold * 2)
        × (report_on by_block (snapshots by_name providers) threshold ≡ r) =
      ground arith in
    subst (λ x. (x.status ≡ agree) ↔ Agrees x.endpoints threshold) facts.1
      (report_on-Agrees by_block (snapshots by_name providers) threshold
        (omega (arith, facts.0, size-snapshots by_name providers)))
