-- ===== src/Quorum/Head.antt =====
-- tools/client/rpc.ts: the groups of the endpoints that report one block, and `quorumHead`.
use Prim.Native.String.{compare}
use text.Mathlib.Text.{is_lt}
use challenge_escrow_protoco.Prelude.{
  ℕ, String, Bool, not, ◌||◌, Option, none, some, List, [], ◌∷◌, ◌++◌, includes, is_null, ltb, leb,
  if◌then◌else◌,
}
use challenge_escrow_protoco.Observer.Types.{Header}
use challenge_escrow_protoco.Observer.Headers.{same_header}
use challenge_escrow_protoco.Observer.Logs.{size}
use challenge_escrow_protoco.Quorum.Types.{
  Tag, latest, safe, finalized, EndpointSnapshot, Group, Status, QuorumHead,
}

-- `endpoint[tag]`
abbrev pub header_at : Tag → EndpointSnapshot → Option Header
header_at latest e = e.latest
header_at safe e = e.safe
header_at finalized e = e.finalized

-- `endpoint.error === null ? endpoint[tag] : null`
abbrev pub vote : Tag → EndpointSnapshot → Option Header
vote tag e = if is_null e.error then header_at tag e else none

-- `sort` on texts
unfoldable pub insert_name : String → List String → List String
insert_name x [] = x ∷ []
insert_name x (y ∷ ys) = if is_lt (compare y x) then y ∷ insert_name x ys else x ∷ y ∷ ys

unfoldable pub sort_names : List String → List String
sort_names [] = []
sort_names (x ∷ xs) = insert_name x (sort_names xs)

-- `grouped.get(key)` with the push of a name, and `grouped.set`; two blocks with one `blockKey` have
-- the same number and, in lower case, the same hashes.
unfoldable pub join_group : Header → String → List Group → List Group
join_group block name [] = record { block = block; providers = name ∷ [] } ∷ []
join_group block name (g ∷ gs) =
    if same_header g.block block
    then record g { providers = g.providers ++ (name ∷ []) } ∷ gs
    else g ∷ join_group block name gs

unfoldable pub add_vote : Option Header → String → List Group → List Group
add_vote none name gs = gs
add_vote (some block) name gs = join_group block name gs

-- The loop over the endpoints.
unfoldable pub group_from : Tag → List EndpointSnapshot → List Group → List Group
group_from tag [] gs = gs
group_from tag (e ∷ es) gs = group_from tag es (add_vote (vote tag e) e.name gs)

-- The names of each group sorted, and the groups in an order of their blocks.
unfoldable pub insert_group : (Header → Header → Bool) → Group → List Group → List Group
insert_group precedes g [] = g ∷ []
insert_group precedes g (h ∷ hs) =
    if precedes h.block g.block then h ∷ insert_group precedes g hs else g ∷ h ∷ hs

unfoldable pub arrange : (Header → Header → Bool) → List Group → List Group
arrange precedes [] = []
arrange precedes (g ∷ gs) =
    insert_group precedes (record g { providers = sort_names g.providers }) (arrange precedes gs)

-- `groups.filter(group => group.providers.length >= threshold)`
unfoldable pub winning : ℕ → List Group → List Group
winning threshold [] = []
winning threshold (g ∷ gs) =
    let rest = winning threshold gs in if leb threshold (size g.providers) then g ∷ rest else rest

-- `groups.flatMap(group => group.providers)`
abbrev pub all_names : List Group → List String
all_names [] = []
all_names (g ∷ gs) = g.providers ++ all_names gs

abbrev without_names : List String → List String → List String
without_names barred [] = []
without_names barred (x ∷ xs) =
    let rest = without_names barred xs in if includes barred x then rest else x ∷ rest

-- The names of the endpoints with an error or without the header.
abbrev pub missing : Tag → List EndpointSnapshot → List String
missing tag [] = []
missing tag (e ∷ es) =
    let rest = missing tag es in
    if not (is_null e.error) || is_null (header_at tag e) then e.name ∷ rest else rest

-- The head for the groups that reached the threshold.
unfoldable pub decide : List Group → List Group → List String → QuorumHead
decide (g ∷ []) groups absent = record {
  status = Status.agree;
  agreed = some g.block;
  supporters = g.providers;
  dissenters = sort_names (without_names g.providers (all_names groups));
  unavailable = absent;
  groups = groups;
}
decide _ groups absent = record {
  status = if ltb 1 (size groups) then Status.conflicted else Status.unavailable;
  agreed = none;
  supporters = [];
  dissenters = sort_names (all_names groups);
  unavailable = absent;
  groups = groups;
}

-- `quorumHead`, where `precedes` is the order of the block keys by `localeCompare`.
unfoldable pub quorum_head : (Header → Header → Bool) → List EndpointSnapshot → Tag → ℕ → QuorumHead
quorum_head precedes endpoints tag threshold =
    let groups = arrange precedes (group_from tag endpoints []) in
    decide (winning threshold groups) groups (sort_names (missing tag endpoints))
