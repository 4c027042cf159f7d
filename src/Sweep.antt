-- ===== src/Sweep.antt =====
-- tools/liveness/sweep.mjs: the stand-alone check of a schedule, its time windows, and the agreement
-- with the model that `assertModelAgreement` tests on samples. Differences of times are only read
-- for schedules that the check admits, where they do not go below zero.
use challenge_escrow_protoco.Prelude.{
  ℕ, ◌+◌, ◌-◌, ◌*◌, ◌≤◌, ◌<◌, max, ◌≡◌, Bool, true, false, ◌&&◌, List, [], ◌∷◌, ◌++◌, ltb, leb,
  contains, includes, str_eq, arith, if◌then◌else◌, ap, ◌∙◌, sym, ◌%◌,
}
use challenge_escrow_protoco.Model.Types.{Schedule, Code, Create, Model}
use challenge_escrow_protoco.Model.Exec.{Result, ok, rejected}
use challenge_escrow_protoco.Model.Doubles.{max_safe_integer}
use challenge_escrow_protoco.Model.Opening
use challenge_escrow_protoco.Model.Opening.{nonce_key}
use challenge_escrow_protoco.Model.Spec
use challenge_escrow_protoco.Model.Spec.{admits}
use challenge_escrow_protoco.Model.Refine
use challenge_escrow_protoco.Model.Refine.{stored}

-- The names of the failed conditions.
pub data Failure : Type 0 where
  acceptance_after_open acceptance_before_observation correction_order positive_windows : Failure
  correction_before_dispute_end timeout_covers_all_paths : Failure

abbrev unless : Bool → Failure → List Failure
unless b f = if b then [] else f ∷ []

abbrev latest_proposal_path : Schedule → ℕ
latest_proposal_path s = s.proposal_deadline + s.dispute_window + s.arbitration_window

abbrev latest_correction_path : Schedule → ℕ
latest_correction_path s = s.source_correction_cutoff + s.arbitration_window

-- `validate`: all failures, in order.
unfoldable pub failures : ℕ → Schedule → List Failure
failures now s =
    unless (ltb now s.acceptance_deadline) acceptance_after_open
    ++ (unless (ltb s.acceptance_deadline s.observation_time) acceptance_before_observation
        ++ (unless
              (ltb s.observation_time s.source_correction_cutoff
                && ltb s.source_correction_cutoff s.proposal_deadline)
              correction_order
            ++ (unless (ltb 0 s.dispute_window && ltb 0 s.arbitration_window) positive_windows
                ++ (unless (ltb s.source_correction_cutoff (s.observation_time + s.dispute_window))
                      correction_before_dispute_end
                    ++ unless
                        (leb (max (latest_proposal_path s) (latest_correction_path s))
                          s.timeout_void_at)
                        timeout_covers_all_paths))))

abbrev is_empty {ℓ} : {A : Type ℓ} → List A → Bool
is_empty [] = true
is_empty (x ∷ xs) = false

unfoldable pub valid : ℕ → Schedule → Bool
unfolding failures
valid now s = is_empty (failures now s)

-- The check admits exactly the schedules of the specification of `create`.
valid-eq-admits : (now : ℕ) (s : Schedule) → valid now s ≡ admits now s
unfolding valid
valid-eq-admits now s = ground arith

-- On a running model, for a creation with a free identifier and nonce, called by the challenger, with
-- a nonce that is not empty and a stake from 1 to half of the largest safe integer: `create`
-- succeeds if the check finds no failure, and rejects with InvalidDeadlines if it finds one.
pub create-agrees-valid :
    (m : Model) (a : Create)
    → m.paused ≡ false
    → contains a.id m.challenges ≡ false
    → includes m.used_nonces (nonce_key a) ≡ false
    → str_eq a.caller a.challenger ≡ true
    → str_eq a.nonce "" ≡ false
    → ltb 0 a.stake ≡ true
    → leb (a.stake * 2) max_safe_integer ≡ true
    → (Opening.create a m).0
      ≡ (if valid a.now a.schedule then ok tt else rejected Code.invalid_deadlines)
create-agrees-valid m a running free fresh own named staked small =
    ap (λ (s : Result (Unit {0}) × Model). s.0) (Refine.create-Refines m a) ∙ admitted
  where
    admitted :
        (stored m a (
          Spec.create m.paused
            (contains a.id m.challenges)
            (includes m.used_nonces (nonce_key a))
            a)).0
        ≡ (if valid a.now a.schedule then ok tt else rejected Code.invalid_deadlines)
    admitted = rw (valid-eq-admits a.now a.schedule) (unfold Spec.create in ground arith)

-- `authorityWindows`, with the slack of the timeout.
pub record Windows : Type 0 where
  pub challenger_open_exit : ℕ
  pub resolver_silence : ℕ
  pub arbiter_silence : ℕ
  pub protocol_bound : ℕ
  pub timeout_slack : ℕ

unfoldable pub authority_windows : ℕ → Schedule → Windows
authority_windows now s = record {
  challenger_open_exit = s.acceptance_deadline - now;
  resolver_silence = s.proposal_deadline - now;
  arbiter_silence = s.proposal_deadline + s.dispute_window + s.arbitration_window - now;
  protocol_bound = s.timeout_void_at - now;
  timeout_slack = s.timeout_void_at - max (latest_proposal_path s) (latest_correction_path s);
}

-- For an admitted schedule every window is positive and inside the protocol's bound, the windows are
-- nested, and the bound is the slack beyond the later of the two paths.
pub windows_nested :
    (now : ℕ) (s : Schedule)
    → valid now s ≡ true
    → let w = authority_windows now s in
      (0 < w.challenger_open_exit)
      × (w.challenger_open_exit < w.resolver_silence)
      × (w.resolver_silence < w.arbiter_silence)
      × (w.arbiter_silence + w.timeout_slack ≤ w.protocol_bound)
      × (now + w.protocol_bound
          ≡ max (latest_proposal_path s) (latest_correction_path s) + w.timeout_slack)
unfolding authority_windows
windows_nested now s h =
    let admitted : admits now s ≡ true = sym (valid-eq-admits now s) ∙ h in ground arith

abbrev pub start_time : ℕ
start_time = 1000000

-- `schedule`, where `random k` is the draw number k: with `force_boundary` the cutoff and the timeout
-- draw nothing. `+ (random() % 9) - 4` is written with the addition first.
unfoldable pub schedule : (ℕ → ℕ) → Bool → Schedule
schedule random force_boundary =
    let acceptance_deadline = start_time + 1 + random 0 % 600 in
    let observation_time = acceptance_deadline + 1 + random 1 % 600 in
    let dispute_window = 1 + random 2 % 600 in
    let source_correction_cutoff =
      if force_boundary
      then observation_time + dispute_window - 1
      else observation_time + random 3 % (dispute_window + 2) in
    let next = if force_boundary then 3 else 4 in
    let proposal_deadline = source_correction_cutoff + 1 + random next % 600 in
    let arbitration_window = 1 + random (next + 1) % 600 in
    let latest_path = proposal_deadline + dispute_window + arbitration_window in
    let latest_correction = source_correction_cutoff + arbitration_window in
    record {
      acceptance_deadline = acceptance_deadline;
      observation_time = observation_time;
      source_correction_cutoff = source_correction_cutoff;
      proposal_deadline = proposal_deadline;
      dispute_window = dispute_window;
      arbitration_window = arbitration_window;
      timeout_void_at =
          if force_boundary
          then max latest_path latest_correction
          else max latest_path latest_correction + random (next + 2) % 9 - 4;
    }

-- Whatever is drawn, a boundary schedule is admitted exactly when its dispute window is longer than
-- one second, and its slack is then zero.
pub boundary_schedule :
    (random : ℕ → ℕ)
    → let s = schedule random true in
      (valid start_time s ≡ ltb 1 s.dispute_window)
      × ((authority_windows start_time s).timeout_slack ≡ 0)
unfolding schedule authority_windows
boundary_schedule random =
    (valid-eq-admits start_time (schedule random true) ∙ ground arith, ground arith)
