-- ===== src/Quorum/Majority.antt =====
-- What the status of a quorum in tools/client/rpc.ts says of the endpoints.
use challenge_escrow_protoco.Prelude.{
  ℕ, ◌*◌, ◌≤◌, ◌<◌, ◌≡◌, ◌⊎◌, refl, subst, Bool, true, false, some, List, [], ◌∷◌, String, arith,
  leb, ltb, if◌then◌else◌, inl, inr, Bool-cases,
}
use challenge_escrow_protoco.Observer.Types.{Header}
use challenge_escrow_protoco.Observer.Headers.{same_header}
use challenge_escrow_protoco.Observer.Logs.{size}
use challenge_escrow_protoco.Quorum.Types.{
  Tag, EndpointSnapshot, Group, agree, conflicted, unavailable, QuorumHead,
}
use challenge_escrow_protoco.Quorum.Head.{group_from, arrange, winning, decide, quorum_head}
use challenge_escrow_protoco.Quorum.Counting.{
  support, held, copies, total, same_header_refl, group_from-Counts, arrange-counts,
}

-- One winning group holds as many names as the threshold, and two hold twice as many.
winning-total :
    (t : ℕ) (gs : List Group)
    → (1 ≤ size (winning t gs) → t ≤ total gs) × (2 ≤ size (winning t gs) → t * 2 ≤ total gs)
unfolding winning
winning-total t [] = (λ h. absurd (omega arith), λ h. absurd (omega arith))
winning-total t (g ∷ gs) =
    let (one, two) = winning-total t gs in
    elim (Bool-cases (leb t (size g.providers))) [
      | inl wins ↦ rw wins ((λ h. ground arith), (λ h. let p = one (omega arith) in ground arith))
      | inr fails ↦
          rw fails ((λ h. let p = one h in omega arith), (λ h. let p = two h in omega arith))
    ]

held_none : (b : Header) (gs : List Group) → copies b gs ≡ 0 → held b gs ≡ 0
held_none b [] e = refl
held_none b (g ∷ gs) e = ground (arith, held_none b gs)

-- A winning group of the block.
abbrev IsWinner : Header → List Group → Type 0
IsWinner b [] = ⊥
IsWinner b (g ∷ gs) = (same_header g.block b ≡ true) ⊎ IsWinner b gs

winning-IsWinner :
    (t : ℕ) (b : Header) (gs : List Group)
    → 0 < t
    → t ≤ held b gs
    → copies b gs ≤ 1
    → IsWinner b (winning t gs)
unfolding winning
winning-IsWinner t b [] pos enough single = absurd (omega arith)
winning-IsWinner t b (g ∷ gs) pos enough single = elim (Bool-cases (same_header g.block b)) [
  | inl mine ↦
      let large : leb t (size g.providers) ≡ true = ground (arith, held_none b gs) in
      rw large (inl mine)
  | inr other ↦
      let rest : IsWinner b (winning t gs) =
        winning-IsWinner t b gs pos (ground arith) (ground arith) in
      elim (Bool-cases (leb t (size g.providers))) [
        | inl wins ↦ rw wins (inr rest)
        | inr fails ↦ rw fails rest
      ]
]

winner_held :
    (t : ℕ) (g : Group) (rest gs : List Group) → winning t gs ≡ g ∷ rest → t ≤ held g.block gs
unfolding winning
winner_held t g rest [] e = cc
winner_held t g rest (h ∷ gs) e = elim (Bool-cases (leb t (size h.providers))) [
  | inl wins ↦
      let same : h ≡ g = cc (rw wins at e) in
      subst (λ (x : Group). t ≤ held x.block (h ∷ gs)) same
        (ground (arith, same_header_refl h.block))
  | inr fails ↦
      let here : winning t gs ≡ g ∷ rest = rw fails at e in
      let less : t ≤ held g.block gs = winner_held t g rest gs here in ground arith
]

-- The head agrees on a block.
abbrev pub AgreesOn : Header → QuorumHead → Type 0
AgreesOn b q = (h : Header) × (q.status ≡ agree) × (q.agreed ≡ some h) × (same_header h b ≡ true)

decide_agrees :
    (b : Header) (winners groups : List Group) (absent : List String)
    → IsWinner b winners
    → size winners < 2
    → AgreesOn b (decide winners groups absent)
unfolding decide
decide_agrees b [] groups absent w small = absurd w
decide_agrees b (g ∷ []) groups absent (inl e) small = (g.block, refl, refl, e)
decide_agrees b (g ∷ []) groups absent (inr w) small = absurd w
decide_agrees b (g ∷ h ∷ rest) groups absent w small = absurd (omega arith)

-- With a threshold above half of the endpoints, the head agrees on a block that as many endpoints as
-- the threshold report without an error, whatever the order of the blocks.
pub quorum_head-agrees :
    (precedes : Header → Header → Bool) (endpoints : List EndpointSnapshot) (tag : Tag)
    (threshold : ℕ) (b : Header)
    → size endpoints < threshold * 2
    → threshold ≤ support tag b endpoints
    → AgreesOn b (quorum_head precedes endpoints tag threshold)
unfolding quorum_head
quorum_head-agrees precedes endpoints tag threshold b majority enough =
    let grouped = group_from tag endpoints [] in
    let counts = group_from-Counts tag b endpoints [] in
    let (x, y, z) = arrange-counts b precedes grouped in
    let (one, two) = winning-total threshold (arrange precedes grouped) in
    let single = counts.single (omega arith) in
    decide_agrees b (winning threshold (arrange precedes grouped)) _ _
      (winning-IsWinner threshold b (arrange precedes grouped) (omega arith)
        (omega (arith, counts.supported, x)) (omega arith))
      (ground (arith, two, counts.bounded, z, majority))

undecided : (b : Bool) → (if b then conflicted else unavailable) ≡ agree → ⊥
undecided true e = cc
undecided false e = cc

decide_supported :
    (winners groups : List Group) (absent : List String)
    → (decide winners groups absent).status ≡ agree
    → (g : Group) × (winners ≡ g ∷ []) × ((decide winners groups absent).agreed ≡ some g.block)
unfolding decide
decide_supported [] groups absent e = absurd (undecided (ltb 1 (size groups)) e)
decide_supported (g ∷ []) groups absent e = (g, refl, refl)
decide_supported (g ∷ h ∷ rest) groups absent e = absurd (undecided (ltb 1 (size groups)) e)

-- Where a head agrees, it agrees on a block that as many endpoints as the threshold report without an
-- error.
pub quorum_head-support :
    (precedes : Header → Header → Bool) (endpoints : List EndpointSnapshot) (tag : Tag)
    (threshold : ℕ)
    → (quorum_head precedes endpoints tag threshold).status ≡ agree
    → (h : Header) × ((quorum_head precedes endpoints tag threshold).agreed ≡ some h)
      × (threshold ≤ support tag h endpoints)
unfolding quorum_head
quorum_head-support precedes endpoints tag threshold e =
    let grouped = group_from tag endpoints [] in
    let (g, won, agreed) = decide_supported _ _ _ e in
    let counts = group_from-Counts tag g.block endpoints [] in
    let (x, y, z) = arrange-counts g.block precedes grouped in
    let enough = winner_held threshold g [] (arrange precedes grouped) won in
    (g.block, agreed, omega (arith, counts.supported, x, enough))
