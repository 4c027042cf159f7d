-- ===== src/Quorum/Report.antt =====
-- tools/client/rpc.ts: `compareRpcQuorum` and `compareRpcHeads`.
use Prim.Native.Char.{code}
use Prim.Native.String.{count}
use challenge_escrow_protoco.Prelude.{
  ℕ, ◌*◌, ◌==◌, String, Bool, true, false, not, ◌&&◌, ◌||◌, List, [], ◌∷◌, includes, ltb, leb,
  if◌then◌else◌,
}
use challenge_escrow_protoco.Observer.Types.{Header}
use challenge_escrow_protoco.Observer.Logs.{size}
use challenge_escrow_protoco.Quorum.Types.{
  Tag, latest, safe, finalized, Endpoint, EndpointSnapshot, Status, agree, conflicted, unavailable,
  QuorumHead, Report, ReportError, Outcome, reported, thrown,
}
use challenge_escrow_protoco.Quorum.Snapshot.{snapshot}
use challenge_escrow_protoco.Quorum.Head.{quorum_head}

abbrev is_alphanumeric : ℕ → Bool
is_alphanumeric n = (leb 48 n && leb n 57) || (leb 97 n && leb n 122)

unfoldable pub all_name : String → Bool
all_name String.[] = true
all_name (String.◌∷◌ c s) = (is_alphanumeric (code c) || code c == 95 || code c == 45) && all_name s

-- The pattern of `providerName`.
unfoldable pub is_name : String → Bool
is_name String.[] = false
is_name (String.◌∷◌ c s) = is_alphanumeric (code c) && (all_name s && leb (count s) 31)

abbrev all_names_valid : List Endpoint → Bool
all_names_valid [] = true
all_names_valid (e ∷ es) = is_name e.name && all_names_valid es

abbrev names_of : List Endpoint → List String
names_of [] = []
names_of (e ∷ es) = e.name ∷ names_of es

-- `new Set(names).size === names.length`
abbrev are_unique : List String → Bool
are_unique [] = true
are_unique (x ∷ xs) = not (includes xs x) && are_unique xs

abbrev pub insert_endpoint :
    (String → String → Bool) → EndpointSnapshot → List EndpointSnapshot → List EndpointSnapshot
insert_endpoint precedes e [] = e ∷ []
insert_endpoint precedes e (f ∷ fs) =
    let rest = insert_endpoint precedes e fs in
    if precedes f.name e.name then f ∷ rest else e ∷ f ∷ fs

-- The snapshots in the order of the names.
unfoldable pub snapshots : (String → String → Bool) → List Endpoint → List EndpointSnapshot
snapshots precedes [] = []
snapshots precedes (e ∷ es) = insert_endpoint precedes (snapshot e) (snapshots precedes es)

abbrev pub is_conflicted : Status → Bool
is_conflicted conflicted = true
is_conflicted _ = false

abbrev is_unavailable : Status → Bool
is_unavailable unavailable = true
is_unavailable _ = false

-- The status of a report: a conflict comes before an absence.
unfoldable pub overall : Status → Status → Status → Status
overall a b c =
    if is_conflicted a || is_conflicted b || is_conflicted c
    then conflicted
    else if is_unavailable a || is_unavailable b || is_unavailable c
    then unavailable
    else agree

-- The report on snapshots.
abbrev pub report_on : (Header → Header → Bool) → List EndpointSnapshot → ℕ → Report
report_on precedes endpoints threshold =
    let head : Tag → QuorumHead = λ tag. quorum_head precedes endpoints tag threshold in
    record {
      status = overall (head latest).status (head safe).status (head finalized).status;
      threshold = threshold;
      latest_head = head latest;
      safe_head = head safe;
      finalized_head = head finalized;
      endpoints = endpoints;
    }

-- `compareRpcQuorum`, with the orders of names and of block keys by `localeCompare`.
unfoldable pub compare_rpc_quorum :
    (String → String → Bool) → (Header → Header → Bool) → List Endpoint → ℕ → Outcome Report
compare_rpc_quorum by_name by_block providers threshold =
    if ltb (size providers) 2 || ltb 16 (size providers)
    then thrown ReportError.provider_count
    else if ltb threshold 2 || ltb (size providers) threshold
    then thrown ReportError.threshold_outside
    else if leb (threshold * 2) (size providers)
    then thrown ReportError.no_majority
    else if not (all_names_valid providers)
    then thrown ReportError.bad_name
    else if not (are_unique (names_of providers))
    then thrown ReportError.repeated_name
    else reported (report_on by_block (snapshots by_name providers) threshold)
