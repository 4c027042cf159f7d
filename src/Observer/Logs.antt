-- ===== src/Observer/Logs.antt =====
-- tools/client/observer.ts: the checks of the logs that a provider returns, and their merge.
use Prim.Native.String.{count}
use challenge_escrow_protoco.Prelude.{
  ℕ, ◌+◌, ◌*◌, ◌==◌, String, Bool, true, false, not, ◌&&◌, ◌||◌, Option, none, some, List, [], ◌∷◌,
  map, str_eq, ltb, leb, if◌then◌else◌,
}
use challenge_escrow_protoco.Observer.Types.{
  Header, Log, RawLog, Removed, absent, marked, kept, Setup, Failure,
}
use challenge_escrow_protoco.Observer.Hex.{is_hash, is_address, is_data, lower}
use challenge_escrow_protoco.Observer.Exec.{Exec, ◌>>=◌, ◌>>◌, done, fail_if}
use challenge_escrow_protoco.Observer.Headers.{max_uint64, find_header}

abbrev pub size {ℓ} : {A : Type ℓ} → List A → ℕ
size [] = 0
size (x ∷ xs) = 1 + size xs

abbrev every : (String → Bool) → List String → Bool
every p [] = true
every p (x ∷ xs) = p x && every p xs

-- `copyLog`
abbrev pub copy_log : Log → Log
copy_log log = record {
  address = lower log.address;
  block_number = log.block_number;
  block_hash = lower log.block_hash;
  transaction_index = log.transaction_index;
  log_index = log.log_index;
  topics = map lower log.topics;
  data_text = lower log.data_text;
}

abbrev pub is_marked : Removed → Bool
is_marked marked = true
is_marked _ = false

abbrev pub is_malformed : Removed → Bool
is_malformed absent = false
is_malformed kept = false
is_malformed _ = true

-- The last group of tests of `normalizeLog`. The number of bytes of the data is half of what follows
-- `0x`.
unfoldable pub is_well_formed : ℕ → Log → Bool
is_well_formed max_log_data_bytes log =
    is_hash log.block_hash
    && (leb log.transaction_index max_uint64
        && (leb log.log_index max_uint64
            && (leb 1 (size log.topics)
                && (leb (size log.topics) 4
                    && (every is_hash log.topics
                        && (is_data log.data_text
                            && leb (count log.data_text) (max_log_data_bytes * 2 + 2)))))))

-- `normalizeLog`
unfoldable pub normalize_log : Setup → ℕ → ℕ → RawLog → Exec Log
normalize_log setup from_block to_block raw = do
  let log = raw.log
  fail_if (is_malformed raw.removed) Failure.log_marker
  fail_if (not (is_address log.address) || not (str_eq (lower log.address) (lower setup.address)))
      Failure.log_elsewhere
  fail_if (ltb log.block_number from_block || ltb to_block log.block_number)
      Failure.log_outside_range
  fail_if (not (is_well_formed setup.limits.max_log_data_bytes log)) Failure.log_malformed
  done (copy_log log)

-- Two logs with the same `eventKey`: a hash holds no colon, so the text `hash:index` has one reading.
-- The hashes of stored logs are in lower case.
abbrev pub same_key : Log → Log → Bool
same_key a b = str_eq a.block_hash b.block_hash && a.log_index == b.log_index

-- `logs.get(eventKey(log))`
unfoldable pub find_log : Log → List Log → Option Log
find_log log [] = none
find_log log (l ∷ ls) = if same_key l log then some l else find_log log ls

abbrev same_texts : List String → List String → Bool
same_texts [] [] = true
same_texts (x ∷ xs) (y ∷ ys) = str_eq x y && same_texts xs ys
same_texts _ _ = false

-- `sameLog`
unfoldable pub same_log : Log → Log → Bool
same_log a b =
    str_eq a.address b.address
    && (a.block_number == b.block_number
        && (str_eq a.block_hash b.block_hash
            && (a.transaction_index == b.transaction_index
                && (a.log_index == b.log_index
                    && (str_eq a.data_text b.data_text && same_texts a.topics b.topics)))))

-- `logs.set(key, log)` for a key that is not there
unfoldable pub append_log : Log → List Log → List Log
append_log log [] = log ∷ []
append_log log (l ∷ ls) = l ∷ append_log log ls

-- The logs of the blocks before a number.
unfoldable pub logs_before : ℕ → List Log → List Log
logs_before from_block [] = []
logs_before from_block (l ∷ ls) =
    let rest = logs_before from_block ls in if ltb l.block_number from_block then l ∷ rest else rest

abbrev pub is_anchor : Option Header → Log → Bool
is_anchor none log = false
is_anchor (some header) log = str_eq header.hash log.block_hash

-- The logs with the number of those that were added.
pub record Merged : Type 0 where
  pub logs : List Log
  pub added : ℕ

-- The two tests on a log with the same key, and the addition where there is none.
unfoldable pub merge_found : Option Log → Log → Merged → Exec Merged
merge_found none log m = done (record { logs = append_log log m.logs; added = m.added + 1 })
merge_found (some existing) log m = do
  fail_if (not (same_log existing log)) Failure.log_conflict
  done m

-- One turn of the loop over the fetched logs.
unfoldable pub merge_log : Setup → ℕ → ℕ → List Header → RawLog → Merged → Exec Merged
merge_log setup from_block to_block headers raw m = if is_marked raw.removed then done m else (do
  log ← normalize_log setup from_block to_block raw
  fail_if (not (is_anchor (find_header log.block_number headers) log)) Failure.log_unanchored
  merge_found (find_log log m.logs) log m)

unfoldable pub merge_logs : Setup → ℕ → ℕ → List Header → List RawLog → Merged → Exec Merged
merge_logs setup from_block to_block headers [] m = done m
merge_logs setup from_block to_block headers (raw ∷ rest) m = do
  m' ← merge_log setup from_block to_block headers raw m
  merge_logs setup from_block to_block headers rest m'
