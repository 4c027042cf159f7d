-- ===== src/Tests/Observing.antt =====
-- tools/client/observer.ts on a chain of three blocks that reorganises after the first
-- synchronisation.
use challenge_escrow_protoco.Prelude.{
  ℕ, arith, String, ◌≡◌, refl, Option, none, some, [], ◌∷◌, ltb, leb, if◌then◌else◌,
}
use challenge_escrow_protoco.Observer.Types.{
  Observer, Header, Log, Removed, RawLog, answered, Provider, Setup,
}
use challenge_escrow_protoco.Observer.Hex.{is_hash, is_address, is_data, all_hex, lower}
use challenge_escrow_protoco.Observer.Exec.{ok, Ensures, ◌>>=◌, ◌>>◌, done, fail, fail_if, await}
use challenge_escrow_protoco.Observer.Headers.{
  normalize_header, same_header, extends_header, find_header, set_header, set_headers, keep_headers,
  load_header, find_ancestor_from, load_headers,
}
use challenge_escrow_protoco.Observer.Logs.{
  is_well_formed, normalize_log, find_log, append_log, logs_before, merge_found, merge_log,
  merge_logs,
}
use challenge_escrow_protoco.Observer.Sync.{
  check_span, read_head, find_ancestor, fetch_logs, rebuild, sync_once, fresh, sync_times,
}
use challenge_escrow_protoco.Observer.Setup.{Options, configure}
use challenge_escrow_protoco.Observer.Returning.{Returns}
use challenge_escrow_protoco.Observer.Steady.{IsChain}
use challenge_escrow_protoco.Observer.Served.{IsServed}
use challenge_escrow_protoco.Observer.First.{Reached, first_sync-Returns}
use challenge_escrow_protoco.Observer.Sound.{IsSound, Synced}
use challenge_escrow_protoco.Observer.Synced.{sync_once-Synced, observer-IsSound}

abbrev header : ℕ → String → String → Header
header n h p = record { number = n; hash = h; parent_hash = p }

abbrev pub block_1 : Header
block_1 =
    header 1 "0x1111111111111111111111111111111111111111111111111111111111111111"
      "0x0000000000000000000000000000000000000000000000000000000000000000"

abbrev pub block_2 : Header
block_2 =
    header 2 "0x2222222222222222222222222222222222222222222222222222222222222222"
      "0x1111111111111111111111111111111111111111111111111111111111111111"

abbrev pub other_2 : Header
other_2 =
    header 2 "0x3333333333333333333333333333333333333333333333333333333333333333"
      "0x1111111111111111111111111111111111111111111111111111111111111111"

abbrev other_3 : Header
other_3 =
    header 3 "0x4444444444444444444444444444444444444444444444444444444444444444"
      "0x3333333333333333333333333333333333333333333333333333333333333333"

abbrev log_in : Header → Log
log_in h = record {
  address = "0xaaaaaaaaaaaaaaaaaaaaaaaaaaaaaaaaaaaaaaaa";
  block_number = h.number;
  block_hash = h.hash;
  transaction_index = 0;
  log_index = 0;
  topics = "0x7777777777777777777777777777777777777777777777777777777777777777" ∷ [];
  data_text = "0x00ff";
}

abbrev raw : Header → RawLog
raw h = record { log = log_in h; removed = Removed.absent }

-- The chain before the seventh read, and after it.
abbrev block_at : ℕ → ℕ → Option Header
block_at s n =
    if leb n 1
    then some block_1
    else if ltb s 6
    then some block_2
    else if leb n 2
    then some other_2
    else some other_3

abbrev provider : Provider
provider = record {
  block_number = λ s. answered (if ltb s 6 then 2 else 3);
  block_by_number = λ s n. answered (block_at s n);
  get_logs = λ s a b. answered (if ltb s 6 then raw block_2 ∷ [] else raw other_3 ∷ []);
}

abbrev no_options : Options
no_options = record {
  max_block_span = none;
  max_reorg_depth = none;
  max_logs_per_sync = none;
  max_log_data_bytes = none;
  max_retained_headers = none;
  max_retained_logs = none;
}

abbrev setup : Setup
setup = record {
  address = "0xaaaaaaaaaaaaaaaaaaaaaaaaaaaaaaaaaaaaaaaa";
  deployment_block = 1;
  limits = record {
    max_block_span = 10000;
    max_reorg_depth = 512;
    max_logs_per_sync = 50000;
    max_log_data_bytes = 4096;
    max_retained_headers = 2048;
    max_retained_logs = 250000;
  };
}

configured : configure "0xaaaaaaaaaaaaaaaaaaaaaaaaaaaaaaaaaaaaaaaa" 1 no_options ≡ ok setup
unfolding configure is_address all_hex lower
configured = refl

-- The observer after both synchronisations follows the new chain.
reorganised : sync_times provider setup 2 fresh 0 ≡ record {
  headers = block_1 ∷ other_2 ∷ other_3 ∷ [];
  logs = log_in other_3 ∷ [];
  head = some other_3;
}
unfolding sync_times sync_once read_head check_span load_header normalize_header find_ancestor
    find_ancestor_from rebuild load_headers set_headers set_header keep_headers find_header
    fetch_logs merge_logs merge_log merge_found normalize_log find_log append_log logs_before
    same_header extends_header is_well_formed is_hash is_address is_data all_hex lower ◌>>=◌ ◌>>◌
    done fail fail_if await
reorganised = refl

observer-IsSound_example : IsSound setup (sync_times provider setup 2 fresh 0)
observer-IsSound_example =
    observer-IsSound provider "0xaaaaaaaaaaaaaaaaaaaaaaaaaaaaaaaaaaaaaaaa" 1 no_options setup 2 0
      configured

sync_once-Synced_example : Ensures (Synced setup) (sync_once provider setup fresh)
sync_once-Synced_example = sync_once-Synced provider setup fresh (omega arith) (refl, refl)

-- A chain whose blocks all have one hash, with a log in block 2.
abbrev uniform : ℕ → Header
uniform n = header n block_1.hash block_1.hash

abbrev steady_log : RawLog
steady_log = record { log = record (log_in block_1) { block_number = 2 }; removed = Removed.kept }

abbrev steady_provider : Provider
steady_provider = record {
  block_number = λ s. answered 3;
  block_by_number = λ s n. answered (some (uniform n));
  get_logs = λ s a b. answered (steady_log ∷ []);
}

uniform-IsChain : IsChain uniform
unfolding is_hash all_hex
uniform-IsChain = record {
  number = λ n. refl;
  hash = λ n. refl;
  parent = λ n. refl;
  joined = λ n. refl;
}

steady_log-IsServed : IsServed setup uniform 1 3 steady_log
unfolding is_address is_well_formed is_hash is_data all_hex lower
steady_log-IsServed = record {
  present = refl;
  address = refl;
  contract = refl;
  low_end = omega arith;
  high_end = omega arith;
  formed = refl;
  block = refl;
}

first_sync-Returns_example :
    Returns (Reached uniform 3 (steady_log ∷ [])) (sync_once steady_provider setup fresh)
first_sync-Returns_example =
    first_sync-Returns setup steady_provider uniform 3 (steady_log ∷ [])
      (record {
        chained = uniform-IsChain;
        heads = λ s. refl;
        blocks = λ s n. refl;
        logs = λ s. refl;
        served = (steady_log-IsServed, tt);
        apart = (tt, tt);
      })
      (record {
        deployed = omega arith;
        small = omega arith;
        span = omega arith;
        fetched = omega arith;
        retained = omega arith;
      })

abbrev unsorted : Observer
unsorted = record { headers = []; logs = log_in other_3 ∷ log_in block_1 ∷ []; head = none }
