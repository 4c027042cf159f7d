-- ===== src/Observer/Types.antt =====
-- tools/client/observer.ts: headers, logs, limits and the state of `ReorgSafeObserver`. Hashes, topics
-- and data are texts; block numbers and log positions are natural numbers, as a negative one is
-- refused by the source.
use challenge_escrow_protoco.Prelude.{ℕ, String, Option, List}

-- `BlockHeader`
pub record Header : Type 0 where
  pub number : ℕ
  pub hash : String
  pub parent_hash : String

-- The `removed` field of a log: absent, a Boolean, or something else.
pub data Removed : Type 0 where
  absent marked kept malformed : Removed

-- `ProtocolLog` as `copyLog` leaves it.
pub record Log : Type 0 where
  pub address : String
  pub block_number : ℕ
  pub block_hash : String
  pub transaction_index : ℕ
  pub log_index : ℕ
  pub topics : List String
  pub data_text : String

-- `ProtocolLog` as a provider returns it.
pub record RawLog : Type 0 where
  pub log : Log
  pub removed : Removed

-- `NormalizedObserverLimits`
pub record Limits : Type 0 where
  pub max_block_span : ℕ
  pub max_reorg_depth : ℕ
  pub max_logs_per_sync : ℕ
  pub max_log_data_bytes : ℕ
  pub max_retained_headers : ℕ
  pub max_retained_logs : ℕ

-- What a provider answers: a value, or a rejected promise.
pub data Answer {ℓ} (A : Type ℓ) : Type ℓ where
  answered : A → Answer A
  broken : Answer A

-- `ChainReadProvider`. The first argument of a read is the number of reads before it: the chain may
-- change between two reads, and nothing is assumed of the answers.
pub record Provider : Type 0 where
  pub block_number : ℕ → Answer ℕ
  pub block_by_number : ℕ → ℕ → Answer (Option Header)
  pub get_logs : ℕ → ℕ → ℕ → Answer (List RawLog)

-- What the constructor fixes.
pub record Setup : Type 0 where
  pub address : String
  pub deployment_block : ℕ
  pub limits : Limits

-- The mutable fields. A `Map` is the list of its values, since each value holds its key.
pub record Observer : Type 0 where
  pub headers : List Header
  pub logs : List Log
  pub head : Option Header

pub record SyncResult : Type 0 where
  pub from_block : ℕ
  pub to_block : ℕ
  pub common_ancestor : Option ℕ
  pub reorg_depth : ℕ
  pub added_logs : ℕ
  pub removed_logs : ℕ
  pub head_hash : String

-- The messages of `fail`; `read_failed` is the error of a provider's promise.
pub data Failure : Type 0 where
  read_failed header_unavailable header_malformed log_marker log_elsewhere : Failure
  log_outside_range log_malformed head_before_deployment initial_span sync_span : Failure
  rollback_depth reorg_depth head_changed_in_headers too_many_logs log_unanchored : Failure
  log_conflict too_many_retained_logs head_changed_in_logs traversal_limit broken_parent : Failure
  broken_chain limit_out_of_range retained_headers_too_few deployment_out_of_range : Failure
  address_malformed : Failure
