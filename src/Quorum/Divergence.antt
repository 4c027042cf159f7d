-- ===== src/Quorum/Divergence.antt =====
-- tools/client/rpc.ts: `compareRpcHeads`, the comparison of two endpoints.
use challenge_escrow_protoco.Prelude.{
  ◌≡◌, ◌↔◌, refl, subst, String, Bool, Option, some, none, List, [], ◌∷◌, arith, if◌then◌else◌,
}
use challenge_escrow_protoco.Observer.Types.{Header}
use challenge_escrow_protoco.Quorum.Types.{
  Tag, latest, safe, finalized, Endpoint, EndpointSnapshot, Status, agree, conflicted, unavailable,
  Report, Outcome, reported, thrown,
}
use challenge_escrow_protoco.Quorum.Report.{
  snapshots, is_conflicted, overall, compare_rpc_quorum, report_on,
}

-- The status of `RpcDivergenceReport`.
pub data PairStatus : Type 0 where
  both_agree divergent both_unavailable : PairStatus

-- `RpcDivergenceReport`, without its fixed fields
pub record Comparison : Type 0 where
  pub status : PairStatus
  pub divergence_at : Option Tag
  pub endpoints : List EndpointSnapshot

abbrev pair_status : Status → PairStatus
pair_status agree = both_agree
pair_status conflicted = divergent
pair_status unavailable = both_unavailable

-- The first tag whose head is conflicted.
abbrev first_conflict : Status → Status → Status → Option Tag
first_conflict a b c =
    if is_conflicted a
    then some latest
    else if is_conflicted b
    then some safe
    else if is_conflicted c
    then some finalized
    else none

abbrev pub divergence_of : Report → Comparison
divergence_of r = record {
  status = pair_status r.status;
  divergence_at = first_conflict r.latest_head.status r.safe_head.status r.finalized_head.status;
  endpoints = r.endpoints;
}

abbrev compared : Outcome Report → Outcome Comparison
compared (thrown e) = thrown e
compared (reported r) = reported (divergence_of r)

-- `compareRpcHeads`
unfoldable pub compare_rpc_heads :
    (String → String → Bool) → (Header → Header → Bool) → Endpoint → Endpoint → Outcome Comparison
compare_rpc_heads by_name by_block left right =
    compared (compare_rpc_quorum by_name by_block (left ∷ right ∷ []) 2)

conflict_located :
    (a b c : Status)
    → (pair_status (overall a b c) ≡ divergent) ↔ ((tag : Tag) × (first_conflict a b c ≡ some tag))
unfolding overall
conflict_located conflicted b c = (λ e. (latest, refl), λ h. refl)
conflict_located agree conflicted c = (λ e. (safe, refl), λ h. refl)
conflict_located unavailable conflicted c = (λ e. (safe, refl), λ h. refl)
conflict_located agree agree conflicted = (λ e. (finalized, refl), λ h. refl)
conflict_located agree unavailable conflicted = (λ e. (finalized, refl), λ h. refl)
conflict_located unavailable agree conflicted = (λ e. (finalized, refl), λ h. refl)
conflict_located unavailable unavailable conflicted = (λ e. (finalized, refl), λ h. refl)
conflict_located agree agree agree = (λ e. cc, λ h. cc h.1)
conflict_located agree agree unavailable = (λ e. cc, λ h. cc h.1)
conflict_located agree unavailable agree = (λ e. cc, λ h. cc h.1)
conflict_located agree unavailable unavailable = (λ e. cc, λ h. cc h.1)
conflict_located unavailable agree agree = (λ e. cc, λ h. cc h.1)
conflict_located unavailable agree unavailable = (λ e. cc, λ h. cc h.1)
conflict_located unavailable unavailable agree = (λ e. cc, λ h. cc h.1)
conflict_located unavailable unavailable unavailable = (λ e. cc, λ h. cc h.1)

-- A comparison of two endpoints that `compareRpcHeads` returns is divergent exactly where it names a
-- tag of the divergence.
pub compare_rpc_heads-divergent :
    (by_name : String → String → Bool) (by_block : Header → Header → Bool) (left right : Endpoint)
    (d : Comparison)
    → compare_rpc_heads by_name by_block left right ≡ reported d
    → (d.status ≡ divergent) ↔ ((tag : Tag) × (d.divergence_at ≡ some tag))
unfolding compare_rpc_heads compare_rpc_quorum
compare_rpc_heads-divergent by_name by_block left right d e =
    let r = report_on by_block (snapshots by_name (left ∷ right ∷ [])) 2 in
    let same : divergence_of r ≡ d = ground arith in
    subst (λ x. (x.status ≡ divergent) ↔ ((tag : Tag) × (x.divergence_at ≡ some tag))) same
      (conflict_located r.latest_head.status r.safe_head.status r.finalized_head.status)
