-- ===== src/Quorum/Snapshot.antt =====
-- tools/client/rpc.ts: the snapshot of one endpoint.
use challenge_escrow_protoco.Prelude.{
  ℕ, ◌+◌, ◌==◌, String, Bool, true, false, not, ◌&&◌, ◌||◌, Option, none, some, str_eq, ltb,
  is_null, if◌then◌else◌,
}
use challenge_escrow_protoco.Observer.Types.{Header, Answer, answered, broken}
use challenge_escrow_protoco.Observer.Hex.{is_hash, lower}
use challenge_escrow_protoco.Observer.Headers.{max_uint64}
use challenge_escrow_protoco.Quorum.Types.{SnapshotError, Endpoint, EndpointSnapshot}

-- `normalizedHeader`
unfoldable pub normalized_header : Option Header → Option Header
normalized_header none = none
normalized_header (some h) =
    if ltb max_uint64 h.number || not (is_hash h.hash) || not (is_hash h.parent_hash)
    then none
    else some (record { number = h.number; hash = lower h.hash; parent_hash = lower h.parent_hash })

-- `sameBlock`
abbrev pub same_block : Header → Header → Bool
same_block a b =
    a.number == b.number && (str_eq a.hash b.hash && str_eq a.parent_hash b.parent_hash)

-- `coherentPair`
unfoldable pub coherent_pair : Header → Header → Bool
coherent_pair newer older =
    if ltb newer.number older.number
    then false
    else if newer.number == older.number
    then same_block newer older
    else if newer.number == older.number + 1
    then str_eq newer.parent_hash older.hash
    else true

-- The snapshot with an error and no header.
abbrev pub without : String → SnapshotError → EndpointSnapshot
without name e = record {
  name = name;
  latest = none;
  safe = none;
  finalized = none;
  error = some e;
}

-- A header that was answered and is malformed.
abbrev pub is_lost : Option Header → Bool
is_lost raw = not (is_null raw) && is_null (normalized_header raw)

-- The tests on three headers that are all there.
unfoldable pub with_tags : String → Header → Header → Header → EndpointSnapshot
with_tags name latest safe finalized =
    if ltb safe.number finalized.number || ltb latest.number safe.number
    then without name SnapshotError.finality_order_invalid
    else if not (coherent_pair latest safe) || not (coherent_pair safe finalized)
    then without name SnapshotError.finality_chain_invalid
    else record {
      name = name;
      latest = some latest;
      safe = some safe;
      finalized = some finalized;
      error = none;
    }

-- What follows the second read of the latest block.
unfoldable pub judge : String → Header → Option Header → Option Header → EndpointSnapshot
judge name latest (some safe) (some finalized) = with_tags name latest safe finalized
judge name latest safe finalized = record {
  name = name;
  latest = some latest;
  safe = safe;
  finalized = finalized;
  error = some SnapshotError.finality_tags_unavailable;
}

-- The comparison with the second read of the latest block.
unfoldable pub compare_again :
    String → Header → Option Header → Option Header → Option Header → EndpointSnapshot
compare_again name latest safe finalized none = without name SnapshotError.latest_block_changed
compare_again name latest safe finalized (some again) =
    if same_block again latest
    then judge name latest safe finalized
    else without name SnapshotError.latest_block_changed

-- The second read of the latest block.
unfoldable pub confirm :
    String → Header → Option Header → Option Header → Answer (Option Header) → EndpointSnapshot
confirm name latest safe finalized broken = without name SnapshotError.rpc_read_failed
confirm name latest safe finalized (answered raw) =
    compare_again name latest safe finalized (normalized_header raw)

-- The tests on the latest block.
unfoldable pub examine :
    Endpoint → ℕ → Option Header → Option Header → Option Header → EndpointSnapshot
examine endpoint number none safe finalized =
    without endpoint.name SnapshotError.latest_block_unavailable
examine endpoint number (some latest) safe finalized =
    if not (latest.number == number)
    then without endpoint.name SnapshotError.latest_number_mismatch
    else confirm endpoint.name latest safe finalized (endpoint.last_read number)

-- The three reads that are awaited together.
unfoldable pub read_three :
    Endpoint
    → ℕ
    → Answer (Option Header)
    → Answer (Option Header)
    → Answer (Option Header)
    → EndpointSnapshot
read_three endpoint number (answered a) (answered b) (answered c) =
    if is_lost a || is_lost b || is_lost c
    then without endpoint.name SnapshotError.malformed_block_header
    else examine endpoint number (normalized_header a) (normalized_header b) (normalized_header c)
read_three endpoint number _ _ _ = without endpoint.name SnapshotError.rpc_read_failed

unfoldable pub read_number : Endpoint → Answer ℕ → EndpointSnapshot
read_number endpoint broken = without endpoint.name SnapshotError.rpc_read_failed
read_number endpoint (answered number) =
    if ltb max_uint64 number
    then without endpoint.name SnapshotError.malformed_block_header
    else read_three endpoint number (endpoint.first_read number) endpoint.safe_read
        endpoint.finalized_read

-- `snapshot`
unfoldable pub snapshot : Endpoint → EndpointSnapshot
snapshot endpoint =
    if endpoint.has_tags
    then read_number endpoint endpoint.block_number
    else without endpoint.name SnapshotError.finality_tags_unavailable
