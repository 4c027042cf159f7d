-- ===== src/Projector/Checks.antt =====
-- tools/client/projector.ts: the checks of the headers and of the logs that a projection is given. What
-- fails is one of the messages of `Defect`.
use challenge_escrow_protoco.Prelude.{
  ℕ, ◌+◌, ◌==◌, String, Bool, true, false, not, ◌&&◌, ◌||◌, Option, none, some, List, [], ◌∷◌,
  includes, is_null, str_eq, ltb, leb, if◌then◌else◌,
}
use challenge_escrow_protoco.Observer.Types.{Header, Log, RawLog}
use challenge_escrow_protoco.Observer.Hex.{is_hash, is_address, lower}
use challenge_escrow_protoco.Observer.Logs.{is_malformed, is_well_formed}
use challenge_escrow_protoco.Observer.Headers.{max_uint64}
use challenge_escrow_protoco.Events.Types.{Defect}
use challenge_escrow_protoco.Events.Exec.{Decoded, value, ◌>>=◌, ◌>>◌, assert}
use challenge_escrow_protoco.Projector.Types.{FinalityLabel, latest, safe, finalized}

-- `validateHeader`
unfoldable pub validate_header : Header → Defect → Decoded (Unit {0})
validate_header h e =
    assert (leb h.number max_uint64 && (is_hash h.hash && is_hash h.parent_hash)) e

-- `sameBlock`
unfoldable pub same_block : Header → Header → Bool
same_block a b =
    a.number == b.number
    && (str_eq (lower a.hash) (lower b.hash) && str_eq (lower a.parent_hash) (lower b.parent_hash))

-- `coherentPair`
unfoldable pub coherent_pair : Header → Header → Bool
unfolding same_block
coherent_pair newer older =
    if ltb newer.number older.number
    then false
    else if newer.number == older.number
    then same_block newer older
    else if newer.number == older.number + 1
    then str_eq (lower newer.parent_hash) (lower older.hash)
    else true

abbrev when_some : Option Header → (Header → Decoded (Unit {0})) → Decoded (Unit {0})
when_some none f = value tt
when_some (some h) f = f h

-- `validateFinality`
unfoldable pub validate_finality : Header → Option Header → Option Header → Decoded (Unit {0})
validate_finality head safe_head finalized_head = do
  validate_header head Defect.head_malformed
  when_some safe_head (λ h. validate_header h Defect.safe_malformed)
  when_some finalized_head (λ h. validate_header h Defect.finalized_malformed)
  assert (not (not (is_null finalized_head) && is_null safe_head)) Defect.finalized_alone
  when_some safe_head (λ s. assert (coherent_pair head s) Defect.safe_incoherent)
  when_some safe_head
      (λ s. when_some finalized_head (λ f. assert (coherent_pair s f) Defect.finalized_incoherent))

-- What the loop over the logs has seen.
pub record Seen : Type 0 where
  pub addresses : List String
  pub block_hashes : List (ℕ × String)
  pub positions : List (String × ℕ)

abbrev pub nothing_seen : Seen
nothing_seen = record { addresses = []; block_hashes = []; positions = [] }

-- A hash other than this one is known for the height.
abbrev pub is_forked : ℕ → String → List (ℕ × String) → Bool
is_forked n hash [] = false
is_forked n hash ((m, known) ∷ hs) = if m == n then not (str_eq known hash) else is_forked n hash hs

abbrev pub is_taken : String → ℕ → List (String × ℕ) → Bool
is_taken hash index [] = false
is_taken hash index ((h, i) ∷ ps) = (str_eq h hash && i == index) || is_taken hash index ps

-- One round of the loop: the tests on a log.
unfoldable pub check_log : Header → RawLog → Seen → Decoded Seen
check_log head raw seen = do
  let log = raw.log
  let hash = lower log.block_hash
  assert
      (is_address log.address
        && (leb log.block_number max_uint64
            && (leb log.block_number head.number
                && (is_well_formed 1_048_576 log && not (is_malformed raw.removed)))))
      Defect.log_malformed
  assert (not (is_forked log.block_number hash seen.block_hashes)) Defect.forked_height
  assert (not (log.block_number == head.number && not (str_eq hash (lower head.hash))))
      Defect.log_off_head
  assert (not (is_taken hash log.log_index seen.positions)) Defect.duplicate_position
  value (record {
    addresses =
        if includes seen.addresses (lower log.address)
        then seen.addresses
        else lower log.address ∷ seen.addresses;
    block_hashes = (log.block_number, hash) ∷ seen.block_hashes;
    positions = (hash, log.log_index) ∷ seen.positions;
  })

-- The loop over the logs.
unfoldable pub check_logs : Header → List RawLog → Seen → Decoded Seen
check_logs head [] seen = value seen
check_logs head (raw ∷ raws) seen = do next ← check_log head raw seen; check_logs head raws next

-- The loop over neighbours in the sorted logs, which looks for a log index that does not grow.
unfoldable pub are_canonical : List Log → Bool
are_canonical [] = true
are_canonical (x ∷ []) = true
are_canonical (x ∷ y ∷ rest) =
    not (x.block_number == y.block_number && leb y.log_index x.log_index)
    && are_canonical (y ∷ rest)

abbrev is_at : Header → Option Header → Bool
is_at head none = false
is_at head (some h) = h.number == head.number && str_eq (lower h.hash) (lower head.hash)

-- `finalityOf`
unfoldable pub finality_of : Header → Option Header → Option Header → FinalityLabel
finality_of head safe_head finalized_head =
    if is_at head finalized_head then finalized else if is_at head safe_head then safe else latest
