-- ===== src/Events/Bounds.antt =====
-- tools/client/events.ts: what holds of every event that is decoded.
use challenge_escrow_protoco.Prelude.{ℕ, ◌+◌, ◌≤◌, ◌<◌, String, ◌≡◌, leb, arith}
use challenge_escrow_protoco.Observer.Types.{Log}
use challenge_escrow_protoco.Observer.Headers.{max_uint64}
use challenge_escrow_protoco.Events.Types.{ChallengeCreated}
use challenge_escrow_protoco.Events.Exec.{
  Decoded, value, ◌>>=◌, Gives, Gives-bind, Gives-after, Gives-then, Gives-assert,
}
use challenge_escrow_protoco.Events.Words.{max_uint256, word, uint, uint64, bounded_uint, read}
use challenge_escrow_protoco.Events.Opening.{check_created, decode_challenge_created}

pub gives {ℓ} : {A : Type 0} {P : A → Type ℓ} (a : A) → P a → Gives P (value a)
gives a p = record { at = p }

pub uint64-max : (text : String) → Gives (λ n. n ≤ max_uint64) (uint64 text)
unfolding uint64
uint64-max text =
    Gives-after (uint text) _
      (λ n. Gives-assert (leb n max_uint64) _ _ (λ h. gives n (ground arith)))

pub bounded_uint-max : (text : String) (m : ℕ) → Gives (λ n. n ≤ m) (bounded_uint text m)
unfolding bounded_uint
bounded_uint-max text m =
    Gives-after (uint text) _ (λ n. Gives-assert (leb n m) _ _ (λ h. gives n (ground arith)))

pub read-Gives {ℓ} :
    {A : Type 0} {P : A → Type ℓ} (convert : String → Decoded A) (log : Log) (i : ℕ)
    → ((text : String) → Gives P (convert text))
    → Gives P (read convert log i)
unfolding read
read-Gives convert log i h = Gives-after (word log.data_text i) _ h

-- After a word that is read as a number of 64 bits, or as one up to a maximum.
pub after_uint64 {ℓ} :
    {B : Type 0} {Q : B → Type ℓ} (log : Log) (i : ℕ) (f : ℕ → Decoded B)
    → ((n : ℕ) → n ≤ max_uint64 → Gives Q (f n))
    → Gives Q (read uint64 log i >>= f)
after_uint64 log i f k = Gives-bind (read uint64 log i) f (read-Gives uint64 log i uint64-max) k

pub after_bounded {ℓ} :
    {B : Type 0} {Q : B → Type ℓ} (m : ℕ) (log : Log) (i : ℕ) (f : ℕ → Decoded B)
    → ((n : ℕ) → n ≤ m → Gives Q (f n))
    → Gives Q (read (λ text. bounded_uint text m) log i >>= f)
after_bounded m log i f k =
    Gives-bind (read (λ text. bounded_uint text m) log i) f
      (read-Gives (λ text. bounded_uint text m) log i (λ text. bounded_uint-max text m)) k

-- The schedule of a challenge as the decoder admits it.
pub record IsOrdered (e : ChallengeCreated) : Type 0 where
  pub staked : 0 < e.stake_amount
  pub payable : e.stake_amount + e.stake_amount ≤ max_uint256
  pub nonce_new : e.acceptance_nonce ≡ 0
  pub accepts_later : e.created_at < e.acceptance_deadline
  pub observes_later : e.acceptance_deadline < e.observation_time
  pub corrects_later : e.observation_time < e.source_correction_cutoff
  pub proposes_later : e.source_correction_cutoff < e.proposal_deadline
  pub dispute_window : 0 < e.dispute_window_seconds
  pub arbitration_window : 0 < e.arbitration_window_seconds
  pub corrects_early : e.source_correction_cutoff < e.observation_time + e.dispute_window_seconds
  pub covered :
      e.proposal_deadline + e.dispute_window_seconds + e.arbitration_window_seconds
      ≤ e.timeout_void_at

abbrev pub IsScheduled : ChallengeCreated → Type 0
IsScheduled e = IsOrdered e × (e.timeout_void_at ≤ max_uint64)

check_created-IsScheduled :
    (e : ChallengeCreated) → e.timeout_void_at ≤ max_uint64 → Gives IsScheduled (check_created e)
unfolding check_created
check_created-IsScheduled e fits = Gives-assert _ _ _ λ staked. Gives-assert _ _ _ λ new.
    Gives-assert _ _ _ λ ordered. Gives-assert _ _ _ λ windows.
      Gives-assert _ _ _ λ early. Gives-assert _ _ _ λ covered. gives e (ground arith, fits)

pub decode_challenge_created-IsScheduled :
    (log : Log) → Gives IsScheduled (decode_challenge_created log)
unfolding decode_challenge_created
decode_challenge_created-IsScheduled log = Gives-then _ _ (
    Gives-then _ _ (
      Gives-after _ _ λ id. Gives-after _ _ λ spec. Gives-after _ _ λ nonce.
        Gives-after _ _ λ wallet. Gives-after _ _ λ side. Gives-after _ _ λ stake.
          Gives-after _ _ λ n. Gives-after _ _ λ accept. Gives-after _ _ λ observe.
            Gives-after _ _ λ correct. Gives-after _ _ λ propose. Gives-after _ _ λ dispute.
              Gives-after _ _ λ arbitrate. after_uint64 log 11 _ λ timeout fits.
                Gives-after _ _ λ execution.
                  Gives-after _ _ λ terms. Gives-after _ _ λ at. check_created-IsScheduled _ fits))
