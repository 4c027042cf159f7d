-- ===== src/Observer/Retained.antt =====
-- What a synchronisation of tools/client/observer.ts keeps below the first block that it loads.
use challenge_escrow_protoco.Prelude.{
  ℕ, ◌+◌, ◌≤◌, ◌<◌, ◌≡◌, inl, inr, ap, subst, true, Option, none, some, List, arith, ltb,
  Option-cases, eq_iff,
}
use mathlib.Core.Bool.{false≢true}
use challenge_escrow_protoco.Observer.Types.{Header, Log, Setup, Observer}
use challenge_escrow_protoco.Observer.Hex.{lower}
use challenge_escrow_protoco.Observer.Headers.{
  same_header, extends_header, find_header, keep_headers, is_known,
}
use challenge_escrow_protoco.Observer.Logs.{logs_before}
use challenge_escrow_protoco.Observer.Sync.{first_block}
use challenge_escrow_protoco.Observer.Store.{find_header-keep_headers}
use challenge_escrow_protoco.Observer.Chain.{
  Linked, Within, Meets, keep_headers-Linked, keep_headers-Within,
}
use challenge_escrow_protoco.Observer.Reads.{IsAncestor}
use challenge_escrow_protoco.Observer.Anchors.{
  IsAnchored, AllLogs, AreDistinct, AllLogs-map, logs_before-AllLogs, logs_before-AreDistinct,
}

-- The stored headers and logs, without a head.
pub record IsConsistent (low : ℕ) (o : Observer) : Type 0 where
  pub high : ℕ
  pub linked : Linked o.headers
  pub within : Within low high o.headers
  pub anchored : AllLogs (IsAnchored low high o.headers) o.logs
  pub distinct : AreDistinct o.logs

abbrev pub kept_headers : ℕ → Observer → List Header
kept_headers from_block o = keep_headers (λ n. ltb n from_block) o.headers

pub record Retains (low latest : ℕ) (o : Observer) (ancestor : Option Header) (from_block : ℕ)
    : Type 0 where
  pub start : low ≤ from_block
  pub top : from_block ≤ latest + 1
  pub linked : Linked (kept_headers from_block o)
  pub within : Within low from_block (kept_headers from_block o)
  pub meets : Meets ancestor from_block (kept_headers from_block o)
  pub anchored :
      AllLogs
        (λ l. IsAnchored low latest (kept_headers from_block o) l × (l.block_number < from_block))
        (logs_before from_block o.logs)
  pub distinct : AreDistinct (logs_before from_block o.logs)

module _ (low latest from_block : ℕ) (o : Observer) (c : IsConsistent low o) where
  kept_log :
      from_block ≤ latest + 1
      → (l : Log) → IsAnchored low c.high o.headers l × (l.block_number < from_block)
      → IsAnchored low latest (kept_headers from_block o) l × (l.block_number < from_block)
  kept_log top l (a, b) = (
    record {
      low_end = a.low_end;
      high_end = omega arith;
      anchor = λ h found. a.anchor h (
          ground (
            arith,
            find_header-keep_headers (λ n. ltb n from_block) l.block_number o.headers,
            found,
          ));
    },
    b,
  )

  retained :
      (ancestor : Option Header)
      → low ≤ from_block
      → from_block ≤ latest + 1
      → Meets ancestor from_block (kept_headers from_block o)
      → Retains low latest o ancestor from_block
  retained ancestor start top meets = record {
    start = start;
    top = top;
    linked = keep_headers-Linked low c.high o.headers (λ n. ltb n from_block) c.linked;
    within =
        keep_headers-Within low c.high o.headers (λ n. ltb n from_block) from_block c.within
          (λ n p b. ground arith);
    meets = meets;
    anchored =
        AllLogs-map _ _ (logs_before from_block o.logs) (kept_log top)
          (logs_before-AllLogs (IsAnchored low c.high o.headers) from_block o.logs c.anchored);
    distinct = logs_before-AreDistinct from_block o.logs c.distinct;
  }

-- A child of the ancestor is a child of the stored header that it was compared with.
extends_stored :
    (a p h : Header)
    → same_header p a ≡ true
    → extends_header h a ≡ true
    → extends_header h p ≡ true
unfolding same_header extends_header
extends_stored a p h e f = ground (
  arith,
  eq_iff (lower p.hash) (lower a.hash),
  eq_iff (lower h.parent_hash) (lower a.hash),
  eq_iff (lower h.parent_hash) (lower p.hash),
)

pub first_block-Retains :
    (setup : Setup) (latest : Header) (o : Observer) (ancestor : Option Header)
    → IsConsistent setup.deployment_block o
    → setup.deployment_block ≤ latest.number
    → IsAncestor o.headers latest ancestor
    → Retains setup.deployment_block latest.number o ancestor (first_block setup ancestor)
first_block-Retains setup latest o none c late h =
    retained setup.deployment_block latest.number setup.deployment_block o c none (omega arith)
      (omega arith)
      (record {
        at = λ h' p found e b.
            let stored : (find_header p.number o.headers ≡ some p)
                × (p.number < setup.deployment_block) =
              ground (
                arith,
                find_header-keep_headers (λ n. ltb n setup.deployment_block) p.number o.headers,
                found,
              ) in
            let (x, y) = c.within.at p.number p stored.0 in absurd (omega (arith, stored.1));
      })
first_block-Retains setup latest o (some a) c late (known, place) =
    elim (Option-cases (find_header a.number o.headers)) [
      | inl missing ↦ absurd (false≢true (rw missing at known))
      | inr (s, found) ↦
          let (x, y) = c.within.at a.number s found in
          retained setup.deployment_block latest.number (a.number + 1) o c (some a) (omega arith)
            (elim place [
              | inl same ↦ omega (arith, ap (λ (h : Header). h.number) same)
              | inr less ↦ omega arith
            ])
            (record {
              at = λ h' p stored e b.
                  let kept : find_header p.number o.headers ≡ some p = ground (
                    arith,
                    find_header-keep_headers (λ n. ltb n (a.number + 1)) p.number o.headers,
                    stored,
                  ) in
                  let same : a.number ≡ p.number = omega arith in
                  let here : is_known (find_header p.number o.headers) a ≡ true =
                    subst (λ k. is_known (find_header k o.headers) a ≡ true) same known in
                  extends_stored a p h' (rw kept at here) (ground arith);
            })
    ]

-- Where nothing is to be loaded, the new head is stored already.
pub is_known-latest :
    (setup : Setup) (latest : Header) (o : Observer) (ancestor : Option Header)
    → setup.deployment_block ≤ latest.number
    → IsAncestor o.headers latest ancestor
    → first_block setup ancestor ≡ latest.number + 1
    → is_known (find_header latest.number (kept_headers (first_block setup ancestor) o)) latest
      ≡ true
is_known-latest setup latest o none late h e = absurd (omega arith)
is_known-latest setup latest o (some a) late (known, inr less) e = absurd (omega arith)
is_known-latest setup latest o (some a) late (known, inl same) e =
    let here : is_known (find_header latest.number o.headers) latest ≡ true =
      subst (λ x. is_known (find_header x.number o.headers) x ≡ true) same known in
    rw (find_header-keep_headers (λ n. ltb n (a.number + 1)) latest.number o.headers) (ground arith)
