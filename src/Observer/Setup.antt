-- ===== src/Observer/Setup.antt =====
-- tools/client/observer.ts: the constructor of `ReorgSafeObserver`.
use challenge_escrow_protoco.Prelude.{
  ℕ, ◌+◌, ◌<◌, ◌≡◌, String, Bool, not, ◌||◌, Option, none, some, max, arith, ltb, leb,
  if◌then◌else◌, ◌==◌,
}
use challenge_escrow_protoco.Observer.Types.{Limits, Setup, Failure}
use challenge_escrow_protoco.Observer.Hex.{is_address, lower}
use challenge_escrow_protoco.Observer.Exec.{Result, ok, failed}
use challenge_escrow_protoco.Observer.Headers.{max_uint64}

-- `ObserverLimits`: each limit may be left out.
pub record Options : Type 0 where
  pub max_block_span : Option ℕ
  pub max_reorg_depth : Option ℕ
  pub max_logs_per_sync : Option ℕ
  pub max_log_data_bytes : Option ℕ
  pub max_retained_headers : Option ℕ
  pub max_retained_logs : Option ℕ

-- A limit that was given, or its default.
abbrev pub given : Option ℕ → ℕ → ℕ
given none fallback = fallback
given (some n) fallback = n

-- `positiveBigInt` and `positiveInteger`, whose test is the same on natural numbers.
abbrev pub outside : ℕ → ℕ → Bool
outside n maximum = n == 0 || ltb maximum n

-- The limits with their defaults.
unfoldable pub limits_of : Options → Limits
limits_of options =
    let depth = given options.max_reorg_depth 512 in
    record {
      max_block_span = given options.max_block_span 10000;
      max_reorg_depth = depth;
      max_logs_per_sync = given options.max_logs_per_sync 50000;
      max_log_data_bytes = given options.max_log_data_bytes 4096;
      max_retained_headers = given options.max_retained_headers (max 2048 (depth + 1));
      max_retained_logs = given options.max_retained_logs 250000;
    }

-- The constructor, its tests in order.
unfoldable pub configure : String → ℕ → Options → Result Setup
unfolding limits_of
configure address deployment_block options =
    let limits = limits_of options in
    if ltb max_uint64 deployment_block
    then failed Failure.deployment_out_of_range
    else if not (is_address address)
    then failed Failure.address_malformed
    else if outside limits.max_block_span 1000000
        || outside limits.max_reorg_depth 1000000
        || outside limits.max_retained_headers 1000001
    then failed Failure.limit_out_of_range
    else if leb limits.max_retained_headers limits.max_reorg_depth
    then failed Failure.retained_headers_too_few
    else if outside limits.max_logs_per_sync 1000000
        || outside limits.max_log_data_bytes 1048576
        || outside limits.max_retained_logs 1000000
    then failed Failure.limit_out_of_range
    else ok
        (record { address = lower address; deployment_block = deployment_block; limits = limits })

-- An accepted observer retains more headers than a reorganisation may be deep, and at least one.
pub configure-window :
    (address : String) (deployment_block : ℕ) (options : Options) (setup : Setup)
    → configure address deployment_block options ≡ ok setup
    → (0 < setup.limits.max_retained_headers)
      × (setup.limits.max_reorg_depth < setup.limits.max_retained_headers)
unfolding configure
configure-window address deployment_block options setup e = ground arith
