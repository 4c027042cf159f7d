-- ===== src/Model/Opening.antt =====
-- tools/model/challenge-model.mjs: the handlers of a challenge that nobody has accepted, and `pause`.
-- A handler that reads a challenge is split behind that read; each rejection and each write stands
-- where the source has it.
use challenge_escrow_protoco.Prelude.{
  ℕ, ◌+◌, ◌*◌, max, String, Bool, not, ◌&&◌, ◌||◌, none, some, [], ◌∷◌, contains, insert, includes,
  bool_eq, str_eq, ltb, leb, ◌==◌,
}
use Prim.Native.String.{◌++◌ as text_append}
use challenge_escrow_protoco.Model.Doubles.{max_safe_integer, double}
use challenge_escrow_protoco.Model.Types.{
  opened, active, cancelled, expired, Code, Challenge, Create, Accept,
}
use challenge_escrow_protoco.Model.Exec.{Exec, ok, ◌>>=◌, ◌>>◌, reject_if, this}
use challenge_escrow_protoco.Model.Shared.{
  state_is, find_challenge, write, set_liability, set_claimable,
}

unfoldable pub pause : String → Bool → Exec (Unit {0})
pause caller paused = do
  self ← this
  reject_if (not (str_eq caller self.pauser)) Code.caller_not_pauser
  reject_if (bool_eq paused self.paused) Code.pause_status_unchanged
  (λ s. (ok tt, record s { paused = paused }))

abbrev pub nonce_key : Create → String
nonce_key a = text_append a.challenger (text_append ":" a.nonce)

-- The challenge that `create` stores.
abbrev pub fresh : Create → Challenge
fresh a = record {
  id = a.id;
  challenger = a.challenger;
  acceptor = none;
  challenger_side = a.challenger_side;
  stake = a.stake;
  state = opened;
  acceptance_nonce = 0;
  deposited = a.stake;
  outstanding = a.stake;
  paid = record { challenger = 0; acceptor = 0 };
  schedule = a.schedule;
  proposal = none;
  dispute = none;
  final = none;
  entitlements = (a.challenger, record { claimable = 0; paid = 0 }) ∷ [];
}

unfoldable pub create : Create → Exec (Unit {0})
create a = do
  self ← this
  reject_if self.paused Code.contract_paused
  reject_if (contains a.id self.challenges) Code.challenge_already_exists
  reject_if (includes self.used_nonces (nonce_key a)) Code.instance_nonce_already_used
  reject_if (not (str_eq a.caller a.challenger)) Code.caller_not_challenger
  reject_if (str_eq a.nonce "" || a.stake == 0 || ltb max_safe_integer (a.stake * 2))
      Code.invalid_execution
  let t = a.schedule
  reject_if (not (ltb a.now t.acceptance_deadline && ltb t.acceptance_deadline t.observation_time))
      Code.invalid_deadlines
  reject_if
      (not (
        ltb t.observation_time t.source_correction_cutoff
        && ltb t.source_correction_cutoff t.proposal_deadline))
      Code.invalid_deadlines
  reject_if (t.dispute_window == 0 || t.arbitration_window == 0) Code.invalid_deadlines
  let latest_proposal_path = t.proposal_deadline + t.dispute_window + t.arbitration_window
  let latest_correction_path = t.source_correction_cutoff + t.arbitration_window
  reject_if
      (leb (t.observation_time + t.dispute_window) t.source_correction_cutoff
        || ltb t.timeout_void_at (max latest_proposal_path latest_correction_path))
      Code.invalid_deadlines
  write a.id (fresh a)
  (λ s. (ok tt, record s { used_nonces = nonce_key a ∷ s.used_nonces }))
  set_liability (λ n. double (n + a.stake))

unfoldable pub advance_nonce_of : Challenge → String → String → ℕ → Exec (Unit {0})
advance_nonce_of c id caller now = do
  reject_if (not (state_is c.state opened)) Code.challenge_not_open
  reject_if (not (str_eq caller c.challenger)) Code.caller_not_challenger
  reject_if (leb c.schedule.acceptance_deadline now) Code.acceptance_window_closed
  write id (record c { acceptance_nonce = c.acceptance_nonce + 1 })

unfoldable pub advance_nonce : String → String → ℕ → Exec (Unit {0})
advance_nonce id caller now = do c ← find_challenge id; advance_nonce_of c id caller now

unfoldable pub accept_of : Challenge → Accept → Exec (Unit {0})
accept_of c a = do
  self ← this
  reject_if (not (state_is c.state opened)) Code.challenge_not_open
  reject_if (leb c.schedule.acceptance_deadline a.now) Code.acceptance_window_closed
  reject_if (not (str_eq a.caller a.acceptor)) Code.caller_not_accepting_wallet
  reject_if
      (str_eq a.acceptor ""
        || str_eq a.acceptor c.challenger
        || includes (self.resolver ∷ self.arbiter ∷ self.pauser ∷ []) a.acceptor)
      Code.invalid_accepting_wallet
  reject_if (not (a.permit_nonce == c.acceptance_nonce)) Code.permit_nonce_mismatch
  reject_if
      (not a.permit_valid
        || leb a.expires_at a.now
        || ltb c.schedule.acceptance_deadline a.expires_at)
      Code.invalid_permit
  write a.id (record c {
    acceptor = some a.acceptor;
    deposited = c.deposited + c.stake;
    outstanding = c.outstanding + c.stake;
    state = active;
    entitlements = insert a.acceptor (record { claimable = 0; paid = 0 }) c.entitlements;
  })
  set_liability (λ n. double (n + c.stake))

unfoldable pub accept : Accept → Exec (Unit {0})
accept a = do
  self ← this
  reject_if self.paused Code.contract_paused
  c ← find_challenge a.id
  accept_of c a

-- The state is written before the entitlement is read.
unfoldable pub cancel_of : Challenge → String → String → ℕ → Exec (Unit {0})
cancel_of c id caller now = do
  reject_if (not (state_is c.state opened)) Code.challenge_not_open
  reject_if (not (str_eq caller c.challenger)) Code.caller_not_challenger
  reject_if (leb c.schedule.acceptance_deadline now) Code.acceptance_window_closed
  write id (record c { state = cancelled })
  c' ← set_claimable (record c { state = cancelled }) (some c.challenger) c.stake
  write id c'

unfoldable pub cancel : String → String → ℕ → Exec (Unit {0})
cancel id caller now = do c ← find_challenge id; cancel_of c id caller now

unfoldable pub expire_of : Challenge → String → ℕ → Exec (Unit {0})
expire_of c id now = do
  reject_if (not (state_is c.state opened)) Code.challenge_not_open
  reject_if (ltb now c.schedule.acceptance_deadline) Code.acceptance_window_open
  write id (record c { state = expired })
  c' ← set_claimable (record c { state = expired }) (some c.challenger) c.stake
  write id c'

unfoldable pub expire : String → ℕ → Exec (Unit {0})
expire id now = do c ← find_challenge id; expire_of c id now
