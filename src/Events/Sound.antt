-- ===== src/Events/Sound.antt =====
-- tools/client/events.ts: what holds of every event that a decoder returns.
use challenge_escrow_protoco.Prelude.{
  ℕ, ◌+◌, ◌-◌, ◌≤◌, ◌<◌, ◌==◌, String, ◌≡◌, true, false, not, ◌⊎◌, inl, inr, [], ◌∷◌, ltb, leb,
  bool_eq, str_eq, Bool, ◌&&◌, if◌then◌else◌, arith, Bool-cases,
}
use challenge_escrow_protoco.Model.Types.{Outcome, for_a, for_b, for_void}
use challenge_escrow_protoco.Observer.Types.{Log}
use challenge_escrow_protoco.Observer.Headers.{max_uint64}
use challenge_escrow_protoco.Events.Types.{
  ReleaseDeclared, ProtocolEvent, released, pause_changed, created, nonce_advanced, accepted,
  cancelled, expired, proposed, disputed, resolved, voided, claimed, refunded,
}
use challenge_escrow_protoco.Events.Exec.{
  Decoded, ◌>>=◌, ◌>>◌, Gives, Gives-bind, Gives-after, Gives-then, Gives-assert, Gives-holds,
}
use challenge_escrow_protoco.Events.Words.{zero_hash_text, read, reason_code, highest_reason}
use challenge_escrow_protoco.Events.Opening.{
  decode_pause_status_changed, decode_acceptance_nonce_advanced, decode_challenge_accepted,
  decode_challenge_cancelled, decode_challenge_expired,
}
use challenge_escrow_protoco.Events.Deciding.{
  decode_outcome_proposed, decode_outcome_disputed, decode_challenge_resolved, is_void, fits_path,
  check_void_hashes, decode_challenge_voided,
}
use challenge_escrow_protoco.Events.Closing.{decode_winnings_claimed, decode_principal_refunded}
use challenge_escrow_protoco.Events.Release.{distinct, check_release, decode_release_declared}
use challenge_escrow_protoco.Events.Bounds.{gives, after_uint64, after_bounded, IsScheduled}

-- A parent hash is missing on path 0, and only there.
unfoldable pub FitsPath : ℕ → String → Type 0
FitsPath path parent =
    (path ≡ 0 → str_eq parent zero_hash_text ≡ true)
    × (0 < path → str_eq parent zero_hash_text ≡ false)

-- A void by timeout has the reason of its path and no hashes; one by evidence has a final hash, and a
-- parent hash on the path of arbitration only.
unfoldable pub FitsVoid : ℕ → ℕ → String → String → Type 0
FitsVoid path reason final parent =
    (2 ≤ path
      → (reason + 2 ≡ path)
        × (str_eq final zero_hash_text ≡ true)
        × (str_eq parent zero_hash_text ≡ true))
    × (path < 2 → (str_eq final zero_hash_text ≡ false) × FitsPath path parent)

-- What holds of a decoded event.
abbrev pub IsSound : ProtocolEvent → Type 0
IsSound (released e) =
    (0 < e.chain_id)
    × (distinct (e.escrow_contract ∷ e.canonical_token ∷ e.resolver ∷ e.arbiter ∷ []) ≡ true)
    × (e.token_decimals ≤ 18)
    × (e.value_mode ≡ 0)
IsSound (pause_changed e) = bool_eq e.previous_paused e.new_paused ≡ false
IsSound (created e) = IsScheduled e
IsSound (nonce_advanced e) = e.new_nonce ≡ e.previous_nonce + 1
IsSound (accepted e) = (0 < e.stake_amount) × (e.permit_expires_at ≤ max_uint64)
IsSound (cancelled e) = 0 < e.refund_amount
IsSound (expired e) = 0 < e.refund_amount
IsSound (proposed e) =
    (e.reason_code ≤ highest_reason e.asserted_outcome) × (e.dispute_deadline ≤ max_uint64)
IsSound (disputed e) =
    (e.reason_code ≤ highest_reason e.asserted_outcome)
    × (e.arbitration_start < e.arbitration_deadline)
    × (e.arbitration_deadline ≤ max_uint64)
IsSound (resolved e) =
    (is_void e.final_outcome ≡ false)
    × (e.resolution_path ≤ 1)
    × (0 < e.claim_amount)
    × (e.reason_code ≤ 3)
    × FitsPath e.resolution_path e.parent_evidence_hash
IsSound (voided e) =
    (e.void_path ≤ 3)
    × (e.void_reason ≤ 5)
    × FitsVoid e.void_path e.void_reason e.final_evidence_hash e.parent_evidence_hash
    × (0 < e.refund_amount_each)
IsSound (claimed e) = 0 < e.amount
IsSound (refunded e) =
    (0 < e.amount) × ((e.origin_state ≡ 4) ⊎ (e.origin_state ≡ 5) ⊎ (e.origin_state ≡ 8))

pub pause-IsSound :
    (log : Log) → Gives (λ e. IsSound (pause_changed e)) (decode_pause_status_changed log)
unfolding decode_pause_status_changed
pause-IsSound log = Gives-then _ _ (
    Gives-then _ _ (
      Gives-after _ _ λ by.
        Gives-after _ _
          λ previous. Gives-after _ _ λ new. Gives-assert _ _ _ λ h. gives _ (ground arith)))

pub nonce-IsSound :
    (log : Log) → Gives (λ e. IsSound (nonce_advanced e)) (decode_acceptance_nonce_advanced log)
unfolding decode_acceptance_nonce_advanced
nonce-IsSound log = Gives-then _ _ (
    Gives-then _ _ (
      Gives-after _ _ λ id. Gives-after _ _ λ wallet.
        Gives-after _ _
          λ previous. Gives-after _ _ λ new. Gives-assert _ _ _ λ h. gives _ (ground arith)))

pub accepted-IsSound :
    (log : Log) → Gives (λ e. IsSound (accepted e)) (decode_challenge_accepted log)
unfolding decode_challenge_accepted
accepted-IsSound log = Gives-then _ _ (
    Gives-then _ _ (
      Gives-after _ _ λ id. Gives-after _ _ λ wallet. Gives-after _ _ λ side.
        Gives-after _ _ λ nonce.
          after_uint64 log 2 _
            λ expiry fits. Gives-after _ _ λ stake. Gives-assert _ _ _ λ h. gives _ (ground arith)))

pub cancelled-IsSound :
    (log : Log) → Gives (λ e. IsSound (cancelled e)) (decode_challenge_cancelled log)
unfolding decode_challenge_cancelled
cancelled-IsSound log = Gives-then _ _ (
    Gives-then _ _ (
      Gives-after _ _ λ id.
        Gives-after _ _
          λ wallet. Gives-after _ _ λ refund. Gives-assert _ _ _ λ h. gives _ (ground arith)))

pub expired-IsSound : (log : Log) → Gives (λ e. IsSound (expired e)) (decode_challenge_expired log)
unfolding decode_challenge_expired
expired-IsSound log = Gives-then _ _ (
    Gives-then _ _ (
      Gives-after _ _ λ id. Gives-after _ _ λ by.
        Gives-after _ _
          λ wallet. Gives-after _ _ λ refund. Gives-assert _ _ _ λ h. gives _ (ground arith)))

-- The reason of an outcome, read from a word.
after_reason :
    {B : Type 0} {Q : B → Type 0} (o : Outcome) (log : Log) (i : ℕ) (f : ℕ → Decoded B)
    → ((n : ℕ) → n ≤ highest_reason o → Gives Q (f n))
    → Gives Q (read (λ text. reason_code text o) log i >>= f)
unfolding reason_code
after_reason o log i f k = after_bounded (highest_reason o) log i f k

pub proposed-IsSound : (log : Log) → Gives (λ e. IsSound (proposed e)) (decode_outcome_proposed log)
unfolding decode_outcome_proposed
proposed-IsSound log = Gives-then _ _ (
    Gives-then _ _ (
      Gives-after _ _ λ o. Gives-after _ _ λ id. Gives-after _ _ λ resolver.
        after_reason o log 1 _ λ reason low.
          Gives-after _ _ λ hash. after_uint64 log 3 _ λ deadline fits. gives _ (low, fits)))

pub disputed-IsSound : (log : Log) → Gives (λ e. IsSound (disputed e)) (decode_outcome_disputed log)
unfolding decode_outcome_disputed
disputed-IsSound log = Gives-then _ _ (
    Gives-then _ _ (
      Gives-after _ _ λ o. Gives-after _ _ λ id. Gives-after _ _ λ wallet.
        after_reason o log 1 _ λ reason low. Gives-after _ _ λ hash. Gives-after _ _ λ parent.
          Gives-after _ _ λ start.
            after_uint64 log 5 _
              λ deadline fits. Gives-assert _ _ _ λ h. gives _ (low, ground arith, fits)))

path_fits : (path : ℕ) (parent : String) → fits_path path parent ≡ true → FitsPath path parent
unfolding FitsPath
path_fits path parent h = ((λ e. ground arith), (λ e. ground arith))

decided_reason : (o : Outcome) (n : ℕ) → is_void o ≡ false → n ≤ highest_reason o → n ≤ 3
decided_reason for_a n e h = h
decided_reason for_b n e h = h
decided_reason for_void n e h = absurd cc

pub resolved-IsSound :
    (log : Log) → Gives (λ e. IsSound (resolved e)) (decode_challenge_resolved log)
unfolding decode_challenge_resolved
resolved-IsSound log = Gives-then _ _ (
    Gives-then _ _ (
      Gives-after _ _ λ o. Gives-assert (not (is_void o)) _ _ λ decided.
        after_bounded 1 log 4 _ λ path low. Gives-after _ _ λ parent.
          Gives-assert (fits_path path parent) _ _ λ fits. Gives-after _ _ λ amount.
            Gives-assert (ltb 0 amount) _ _ λ h. Gives-after _ _ λ id. Gives-after _ _ λ by.
              Gives-after _ _ λ wallet. after_reason o log 1 _ λ reason few. Gives-after _ _ λ hash.
                gives _ (
                  ground arith,
                  low,
                  ground arith,
                  decided_reason o reason (ground arith) few,
                  path_fits path parent fits,
                )))

timeout_fits :
    (path reason : ℕ) (final parent : String)
    → leb 2 path ≡ true
    → (str_eq final zero_hash_text && str_eq parent zero_hash_text) ≡ true
    → (reason == path - 2) ≡ true
    → FitsVoid path reason final parent
unfolding FitsVoid
timeout_fits path reason final parent late hashes same =
    ((λ e. (ground arith, ground arith, ground arith)), (λ e. absurd (ground arith)))

evidence_fits :
    (path reason : ℕ) (final parent : String)
    → leb 2 path ≡ false
    → not (str_eq final zero_hash_text) ≡ true
    → fits_path path parent ≡ true
    → FitsVoid path reason final parent
unfolding FitsVoid
evidence_fits path reason final parent early hash fits =
    ((λ e. absurd (ground arith)), (λ e. (ground arith, path_fits path parent fits)))

hashes_checked :
    (path reason : ℕ) (final parent : String)
    → Gives (λ u. FitsVoid path reason final parent) (check_void_hashes path reason final parent)
unfolding check_void_hashes
hashes_checked path reason final parent = elim (Bool-cases (leb 2 path)) [
  | inl late ↦ rw late (
      Gives-assert (str_eq final zero_hash_text && str_eq parent zero_hash_text) _ _ λ hashes.
        Gives-holds (reason == path - 2) _
          λ same. timeout_fits path reason final parent late hashes same)
  | inr early ↦ rw early (
      Gives-assert (not (str_eq final zero_hash_text)) _ _ λ hash.
        Gives-holds (fits_path path parent) _
          λ fits. evidence_fits path reason final parent early hash fits)
]

-- After the tests on the hashes of a void, its reason on a timeout path.
after_hashes :
    {B : Type 0} {Q : B → Type 0} (path reason : ℕ) (final parent : String) (n : Decoded B)
    → (FitsVoid path reason final parent → Gives Q n)
    → Gives Q (check_void_hashes path reason final parent >> n)
unfolding ◌>>◌
after_hashes path reason final parent n k =
    Gives-bind (check_void_hashes path reason final parent) (λ _. n)
      (hashes_checked path reason final parent) (λ u h. k h)

void_bounded : (b : Bool) (n : ℕ) → n ≤ (if b then 1 else 5) → n ≤ 5
void_bounded true n h = omega (arith, h)
void_bounded false n h = h

pub voided-IsSound : (log : Log) → Gives (λ e. IsSound (voided e)) (decode_challenge_voided log)
unfolding decode_challenge_voided
voided-IsSound log = Gives-then _ _ (
    Gives-then _ _ (
      after_bounded 3 log 3 _ λ path low.
        after_bounded (if leb 2 path then 1 else 5) log 0 _ λ reason few. Gives-after _ _ λ final.
          Gives-after _ _ λ parent. after_hashes path reason final parent _ λ right.
            Gives-after _ _ λ amount. Gives-assert (ltb 0 amount) _ _ λ h. Gives-after _ _ λ id.
              Gives-after _ _
                λ by. gives _ (low, void_bounded (leb 2 path) reason few, right, ground arith)))

pub claimed-IsSound : (log : Log) → Gives (λ e. IsSound (claimed e)) (decode_winnings_claimed log)
unfolding decode_winnings_claimed
claimed-IsSound log = Gives-then _ _ (
    Gives-then _ _ (
      Gives-after _ _ λ id. Gives-after _ _ λ entitlement.
        Gives-after _ _
          λ wallet. Gives-after _ _ λ amount. Gives-assert _ _ _ λ h. gives _ (ground arith)))

pub refunded-IsSound :
    (log : Log) → Gives (λ e. IsSound (refunded e)) (decode_principal_refunded log)
unfolding decode_principal_refunded
refunded-IsSound log = Gives-then _ _ (
    Gives-then _ _ (
      Gives-after _ _ λ origin. Gives-assert _ _ _ λ ended. Gives-after _ _ λ amount.
        Gives-assert (ltb 0 amount) _ _ λ h. Gives-after _ _ λ id.
          Gives-after _ _
            λ entitlement. Gives-after _ _ λ wallet. gives _ (ground arith, ground arith)))

check_release-IsSound :
    (address : String) (e : ReleaseDeclared)
    → e.token_decimals ≤ 18
    → e.value_mode ≤ 0
    → Gives (λ d. IsSound (released d)) (check_release address e)
unfolding check_release
check_release-IsSound address e decimals mode = Gives-assert (ltb 0 e.chain_id) _ _ λ chain.
    Gives-then _ _ (
      Gives-then _ _ (
        Gives-then _ _ (
          Gives-then _ _ (
            Gives-then _ _
              (Gives-assert _ _ _ λ apart. gives e (ground arith, apart, decimals, omega arith))))))

pub released-IsSound : (log : Log) → Gives (λ e. IsSound (released e)) (decode_release_declared log)
unfolding decode_release_declared
released-IsSound log = Gives-then _ _ (
    Gives-then _ _ (
      Gives-after _ _ λ protocol. Gives-after _ _ λ version. Gives-after _ _ λ challenge.
        Gives-after _ _ λ evidence. Gives-after _ _ λ bytes. Gives-then _ _ (
          Gives-after _ _ λ id. Gives-after _ _ λ chain. Gives-after _ _ λ escrow.
            Gives-after _ _ λ token. after_bounded 18 log 7 _ λ decimals few.
              after_bounded 0 log 8 _ λ mode plain. Gives-after _ _ λ resolver.
                Gives-after _ _ λ arbiter.
                  Gives-after _ _ λ paused. check_release-IsSound log.address _ few plain)))
