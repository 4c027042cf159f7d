-- ===== src/Observer/Sync.antt =====
-- tools/client/observer.ts: `#syncOnce`, and a series of synchronisations.
use challenge_escrow_protoco.Prelude.{
  ℕ, zero, suc, ◌+◌, ◌-◌, Bool, false, not, ◌||◌, Option, none, some, List, [], ◌∷◌, ltb, leb,
  if◌then◌else◌,
}
use challenge_escrow_protoco.Observer.Types.{
  Header, RawLog, Provider, Setup, Observer, SyncResult, Failure,
}
use challenge_escrow_protoco.Observer.Exec.{
  Result, ok, failed, Exec, ◌>>=◌, ◌>>◌, done, fail_if, await,
}
use challenge_escrow_protoco.Observer.Headers.{
  max_uint64, same_header, find_ancestor_from, keep_headers, load_header, load_headers, set_headers,
}
use challenge_escrow_protoco.Observer.Logs.{size, logs_before, merge_logs}

-- The tests of the provider's head against the head of the last synchronisation.
unfoldable pub check_span : Setup → Option Header → ℕ → Exec (Unit {0})
check_span setup none latest =
    fail_if (ltb setup.limits.max_block_span (latest - setup.deployment_block + 1))
      Failure.initial_span
check_span setup (some previous) latest = do
  fail_if (ltb (previous.number + setup.limits.max_block_span) latest) Failure.sync_span
  fail_if (ltb (latest + setup.limits.max_reorg_depth) previous.number) Failure.rollback_depth

-- The head that a synchronisation aims at.
unfoldable pub read_head : Provider → Setup → Option Header → Exec Header
read_head provider setup previous = do
  latest ← await provider.block_number
  fail_if (ltb latest setup.deployment_block || ltb max_uint64 latest)
      Failure.head_before_deployment
  check_span setup previous latest
  load_header provider latest

-- `previousHead ? await this.#findCommonAncestor(latest) : null`
unfoldable pub find_ancestor :
    Provider → Setup → List Header → Header → Option Header → Exec (Option Header)
find_ancestor provider setup headers latest none = done none
find_ancestor provider setup headers latest (some previous) =
    find_ancestor_from provider setup.deployment_block
      (setup.limits.max_block_span + setup.limits.max_reorg_depth) headers latest

-- `fromBlock`, one more than `retainedBlock`.
abbrev pub first_block : Setup → Option Header → ℕ
first_block setup none = setup.deployment_block
first_block setup (some ancestor) = ancestor.number + 1

-- `reorgDepth`: the previous head is not below the retained block, so the difference is exact.
abbrev pub depth_of : Option Header → ℕ → ℕ
depth_of none from_block = 0
depth_of (some previous) from_block = previous.number + 1 - from_block

abbrev pub number_of : Option Header → Option ℕ
number_of none = none
number_of (some h) = some h.number

-- `headers.length > 0 && !sameHeader(headers[headers.length - 1], latest)`
abbrev pub ends_elsewhere : List Header → Header → Bool
ends_elsewhere [] latest = false
ends_elsewhere (h ∷ []) latest = not (same_header h latest)
ends_elsewhere (h ∷ g ∷ rest) latest = ends_elsewhere (g ∷ rest) latest

unfoldable pub fetch_logs : Provider → ℕ → ℕ → Exec (List RawLog)
fetch_logs provider from_block to_block =
    if leb from_block to_block
    then await (λ s. provider.get_logs s from_block to_block)
    else done []

-- What follows the search of the ancestor.
unfoldable pub rebuild :
    Provider → Setup → Observer → Header → Option Header → Exec (SyncResult × Observer)
rebuild provider setup o latest ancestor = do
  let from_block = first_block setup ancestor
  let depth = depth_of o.head from_block
  fail_if (ltb setup.limits.max_reorg_depth depth) Failure.reorg_depth
  let retained = logs_before from_block o.logs
  headers ← load_headers provider (latest.number + 1 - from_block) from_block ancestor
  let next_headers = set_headers headers (keep_headers (λ n. ltb n from_block) o.headers)
  fail_if (ends_elsewhere headers latest) Failure.head_changed_in_headers
  fetched ← fetch_logs provider from_block latest.number
  fail_if (ltb setup.limits.max_logs_per_sync (size fetched)) Failure.too_many_logs
  merged ←
      merge_logs setup from_block latest.number next_headers fetched
        (record { logs = retained; added = 0 })
  fail_if (ltb setup.limits.max_retained_logs (size merged.logs)) Failure.too_many_retained_logs
  final_anchor ← load_header provider latest.number
  fail_if (not (same_header final_anchor latest)) Failure.head_changed_in_logs
  done (
    record {
      from_block = from_block;
      to_block = latest.number;
      common_ancestor = number_of ancestor;
      reorg_depth = depth;
      added_logs = merged.added;
      removed_logs = size o.logs - size retained;
      head_hash = latest.hash;
    },
    record {
      headers =
          keep_headers (λ n. leb (latest.number + 1) (n + setup.limits.max_retained_headers))
            next_headers;
      logs = merged.logs;
      head = some latest;
    },
  )

-- `#syncOnce`, with the fields as they are after it returns.
unfoldable pub sync_once : Provider → Setup → Observer → Exec (SyncResult × Observer)
sync_once provider setup o = do
  latest ← read_head provider setup o.head
  ancestor ← find_ancestor provider setup o.headers latest o.head
  rebuild provider setup o latest ancestor

-- The fields after a synchronisation: a failure leaves them as they were.
abbrev pub after_sync : Observer → Result (SyncResult × Observer) → Observer
after_sync o (ok (r, o')) = o'
after_sync o (failed e) = o

abbrev pub fresh : Observer
fresh = record { headers = []; logs = []; head = none }

-- A series of synchronisations, one after the other, from the first read or a later one on.
unfoldable pub sync_times : Provider → Setup → ℕ → Observer → ℕ → Observer
sync_times provider setup zero o s = o
sync_times provider setup (suc n) o s =
    let (r, s') = sync_once provider setup o s in sync_times provider setup n (after_sync o r) s'
