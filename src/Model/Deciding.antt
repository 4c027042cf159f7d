-- ===== src/Model/Deciding.antt =====
-- tools/model/challenge-model.mjs: the handlers that decide an accepted challenge.
use challenge_escrow_protoco.Prelude.{
  ℕ, ◌+◌, ◌*◌, max, String, not, ◌&&◌, ◌||◌, Option, none, some, holds_text, str_eq, ltb, leb,
}
use challenge_escrow_protoco.Model.Types.{
  State, active, proposed, disputed, resolved_a, resolved_b, void, Outcome, for_a, for_b, for_void,
  Code, Challenge, Propose, Answer,
}
use challenge_escrow_protoco.Model.Exec.{Exec, ◌>>=◌, ◌>>◌, reject_if, or_reject, read, this}
use challenge_escrow_protoco.Model.Shared.{
  state_is, outcome_eq, winner, find_challenge, write, set_claimable,
}

unfoldable pub propose_of : Challenge → Propose → Exec (Unit {0})
propose_of c a = do
  self ← this
  reject_if (not (state_is c.state active)) Code.challenge_not_active
  reject_if (not (str_eq a.caller self.resolver)) Code.caller_not_resolver
  reject_if (ltb a.now c.schedule.observation_time) Code.observation_not_reached
  reject_if (leb c.schedule.proposal_deadline a.now) Code.proposal_window_closed
  reject_if (str_eq a.evidence_hash "") Code.invalid_proposal
  outcome ← or_reject a.outcome Code.invalid_proposal
  reject_if
      (outcome_eq outcome for_void
        && not (str_eq a.void_reason "TERMS_UNRESOLVABLE")
        && ltb a.now c.schedule.source_correction_cutoff)
      Code.source_correction_cutoff_not_reached
  write a.id (record c {
    proposal = some (record {
      outcome = outcome;
      evidence_hash = a.evidence_hash;
      proposed_at = a.now;
      dispute_deadline = a.now + c.schedule.dispute_window;
    });
    state = proposed;
  })

unfoldable pub propose : Propose → Exec (Unit {0})
propose a = do
  self ← this
  reject_if self.paused Code.contract_paused
  c ← find_challenge a.id
  propose_of c a

unfoldable pub dispute_of : Challenge → Answer → Exec (Unit {0})
dispute_of c a = do
  reject_if (not (state_is c.state proposed)) Code.challenge_not_proposed
  reject_if (not (str_eq a.caller c.challenger || holds_text a.caller c.acceptor))
      Code.caller_not_participant
  p ← read c.proposal
  reject_if (leb p.dispute_deadline a.now) Code.dispute_window_closed
  outcome ← or_reject a.outcome Code.invalid_dispute
  reject_if (outcome_eq outcome p.outcome) Code.invalid_dispute
  reject_if (str_eq a.evidence_hash "" || not (str_eq a.parent_evidence_hash p.evidence_hash))
      Code.invalid_evidence_lineage
  let arbitration_start = max a.now c.schedule.source_correction_cutoff
  write a.id (record c {
    dispute = some (record {
      outcome = outcome;
      evidence_hash = a.evidence_hash;
      parent_evidence_hash = a.parent_evidence_hash;
      disputed_at = a.now;
      arbitration_start = arbitration_start;
      arbitration_deadline = arbitration_start + c.schedule.arbitration_window;
    });
    state = disputed;
  })

unfoldable pub dispute : Answer → Exec (Unit {0})
dispute a = do c ← find_challenge a.id; dispute_of c a

-- `#setFinal`, assignment by assignment
unfoldable pub settle_void : Challenge → String → Exec (Unit {0})
settle_void c id = do
  write id (record c { state = void })
  c' ← set_claimable (record c { state = void }) (some c.challenger) c.stake
  write id c'
  c'' ← set_claimable c' c.acceptor c.stake
  write id c''

unfoldable pub settle_winner : Challenge → String → State → Outcome → Exec (Unit {0})
settle_winner c id state outcome = do
  write id (record c { state = state })
  c' ← set_claimable (record c { state = state }) (winner c outcome) (c.stake * 2)
  write id c'

abbrev pub settle : Challenge → String → Outcome → Exec (Unit {0})
settle c id for_void = settle_void c id
settle c id for_a = settle_winner c id resolved_a for_a
settle c id for_b = settle_winner c id resolved_b for_b

unfoldable pub set_final : Challenge → String → Outcome → Option String → Exec (Unit {0})
unfolding settle_void settle_winner
set_final c id outcome evidence_hash = do
  let c' = record c { final = some (record { outcome = outcome; evidence_hash = evidence_hash }) }
  write id c'
  settle c' id outcome

unfoldable pub finalize_of : Challenge → String → ℕ → Exec (Unit {0})
finalize_of c id now = do
  reject_if (not (state_is c.state proposed)) Code.challenge_not_proposed
  p ← read c.proposal
  reject_if (ltb now p.dispute_deadline) Code.dispute_deadline_not_reached
  set_final c id p.outcome (some p.evidence_hash)

unfoldable pub finalize : String → ℕ → Exec (Unit {0})
finalize id now = do c ← find_challenge id; finalize_of c id now

unfoldable pub arbitrate_of : Challenge → Answer → Exec (Unit {0})
arbitrate_of c a = do
  self ← this
  reject_if (not (state_is c.state disputed)) Code.challenge_not_disputed
  reject_if (not (str_eq a.caller self.arbiter)) Code.caller_not_arbiter
  reject_if (ltb a.now c.schedule.source_correction_cutoff)
      Code.source_correction_cutoff_not_reached
  d ← read c.dispute
  reject_if (leb d.arbitration_deadline a.now) Code.arbitration_window_closed
  reject_if (str_eq a.evidence_hash "" || not (str_eq a.parent_evidence_hash d.evidence_hash))
      Code.invalid_evidence_lineage
  outcome ← or_reject a.outcome Code.invalid_evidence_lineage
  set_final c a.id outcome (some a.evidence_hash)

unfoldable pub arbitrate : Answer → Exec (Unit {0})
arbitrate a = do c ← find_challenge a.id; arbitrate_of c a

unfoldable pub void_unproposed_of : Challenge → String → ℕ → Exec (Unit {0})
void_unproposed_of c id now = do
  reject_if (not (state_is c.state active)) Code.challenge_not_active
  reject_if (ltb now c.schedule.proposal_deadline) Code.proposal_deadline_not_reached
  set_final c id for_void none

unfoldable pub void_unproposed : String → ℕ → Exec (Unit {0})
void_unproposed id now = do c ← find_challenge id; void_unproposed_of c id now

unfoldable pub void_unarbitrated_of : Challenge → String → ℕ → Exec (Unit {0})
void_unarbitrated_of c id now = do
  reject_if (not (state_is c.state disputed)) Code.challenge_not_disputed
  d ← read c.dispute
  reject_if (ltb now d.arbitration_deadline) Code.arbitration_deadline_not_reached
  set_final c id for_void none

unfoldable pub void_unarbitrated : String → ℕ → Exec (Unit {0})
void_unarbitrated id now = do c ← find_challenge id; void_unarbitrated_of c id now
