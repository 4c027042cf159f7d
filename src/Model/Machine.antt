-- ===== src/Model/Machine.antt =====
-- tools/model/challenge-model.mjs: `assertInvariants`, `snapshot`, the switch of `#apply`, and `apply`.
use mathlib.Core.Logic.{ite}
use challenge_escrow_protoco.Prelude.{
  ℕ, ◌+◌, ◌*◌, String, String-discrete, ℕ_discrete, Bool, true, false, not, ◌&&◌, ◌||◌, Option,
  none, some, List, [], ◌∷◌, Dict, lookup, is_null, ◌==◌, if◌then◌else◌,
}
use challenge_escrow_protoco.Model.Doubles.{double}
use challenge_escrow_protoco.Model.Types.{
  State, void, Code, Fault, type_error, challenge_accounting, terminal_without_final,
  winner_entitlement, void_without_acceptor, void_entitlement, total_liability, atomicity_failure,
  Final, Entitlement, Challenge, Model, Snapshot, Action,
}
use challenge_escrow_protoco.Model.Exec.{Exec, Result, ok, rejected, crashed, done, reject}
use challenge_escrow_protoco.Model.Shared.{state_is, is_resolved, winner, property}
use challenge_escrow_protoco.Model.Opening.{pause, create, advance_nonce, accept, cancel, expire}
use challenge_escrow_protoco.Model.Deciding.{
  propose, dispute, finalize, arbitrate, void_unproposed, void_unarbitrated,
}
use challenge_escrow_protoco.Model.Payout.{claim, refund}

-- Whether the entitlement of a wallet, paid or not, comes to `amount`; a missing one is a fault.
abbrev check_entitlement : Option Entitlement → ℕ → Fault → Option Fault
check_entitlement none amount x = some type_error
check_entitlement (some e) amount x = if e.claimable + e.paid == amount then none else some x

abbrev first_fault : Option Fault → Option Fault → Option Fault
first_fault (some x) y = some x
first_fault none y = y

abbrev check_winner : Challenge → Option Final → Option Fault
check_winner c none = some type_error
check_winner c (some f) =
    check_entitlement (lookup (property (winner c f.outcome)) c.entitlements) (c.stake * 2)
      winner_entitlement

abbrev check_void : Challenge → Option String → Option Fault
check_void c none = some void_without_acceptor
check_void c (some acceptor) =
    first_fault (check_entitlement (lookup c.challenger c.entitlements) c.stake void_entitlement)
      (check_entitlement (lookup acceptor c.entitlements) c.stake void_entitlement)

-- `TERMINAL.has(state)`, without CANCELLED and EXPIRED
abbrev needs_final : State → Bool
needs_final s = is_resolved s || state_is s void

-- The body of the loop. A state outside `State` and a negative amount cannot be written down here.
unfoldable pub check_challenge : Challenge → Option Fault
check_challenge c =
    if not (c.deposited == c.outstanding + c.paid.challenger + c.paid.acceptor)
    then some challenge_accounting
    else if needs_final c.state && is_null c.final
    then some terminal_without_final
    else first_fault (if is_resolved c.state then check_winner c c.final else none)
        (if state_is c.state void then check_void c c.acceptor else none)

unfoldable pub check_from : ℕ → Dict Challenge → ℕ → Option Fault
check_from aggregate [] total = if aggregate == total then none else some total_liability
check_from aggregate ((id, c) ∷ rest) total =
    first_fault (check_challenge c) (check_from (double (aggregate + c.outstanding)) rest total)

unfoldable pub assert_invariants : Model → Option Fault
assert_invariants m = check_from 0 m.challenges m.total_outstanding_liability

abbrev pub values : Dict Challenge → List Challenge
values [] = []
values ((id, c) ∷ rest) = c ∷ values rest

abbrev pub snapshot : Model → Snapshot
snapshot m = record {
  paused = m.paused;
  total_outstanding_liability = m.total_outstanding_liability;
  challenges = values m.challenges;
}

-- Two snapshots with one JSON text are equal.
unfoldable pub Snapshot-discrete : Discrete Snapshot
Snapshot-discrete = hlevel (ℕ_discrete, String-discrete)

-- `#apply`
unfoldable pub dispatch : Action → Exec (Unit {0})
dispatch Action.warp = done
dispatch Action.other = reject Code.unknown_action
dispatch (Action.pause caller paused) = pause caller paused
dispatch (Action.create a) = create a
dispatch (Action.advance_nonce id caller now) = advance_nonce id caller now
dispatch (Action.accept a) = accept a
dispatch (Action.cancel id caller now) = cancel id caller now
dispatch (Action.expire id now) = expire id now
dispatch (Action.propose a) = propose a
dispatch (Action.dispute a) = dispute a
dispatch (Action.finalize id now) = finalize id now
dispatch (Action.arbitrate a) = arbitrate a
dispatch (Action.void_unproposed id now) = void_unproposed id now
dispatch (Action.void_unarbitrated id now) = void_unarbitrated id now
dispatch (Action.claim id caller) = claim id caller
dispatch (Action.refund id caller) = refund id caller

-- What `apply` returns, `accepted` for `ok: true`, or throws.
pub data Reply : Type 0 where
  accepted : Snapshot → Reply
  refused : Code → Snapshot → Reply
  thrown : Fault → Reply

abbrev pub check_after : Result (Unit {0}) → Model → Result (Unit {0})
check_after (ok _) m = elim (assert_invariants m) [ none ↦ ok tt | some x ↦ crashed x ]
check_after r m = r

abbrev pub reply : Bool → Snapshot → Result (Unit {0}) → Reply
reply same after (ok _) = accepted after
reply false after r = thrown atomicity_failure
reply true after (rejected code) = refused code after
reply true after (crashed x) = thrown x

-- What `apply` makes of the handler's run: the assertions, the comparison, the reply.
abbrev pub answer : Model → Result (Unit {0}) × Model → Reply × Model
answer before (r, after) = (
  reply (ite (Snapshot-discrete (snapshot before) (snapshot after)) true false) (snapshot after)
      (check_after r after),
  after,
)

unfoldable pub apply : Action → Model → Reply × Model
apply action before = answer before (dispatch action before)

-- The constructor.
abbrev pub new : String → String → String → Model
new resolver arbiter pauser = record {
  resolver = resolver;
  arbiter = arbiter;
  pauser = pauser;
  paused = false;
  total_outstanding_liability = 0;
  challenges = [];
  used_nonces = [];
}

-- A run of the simulator: the replies are dropped, the state is kept.
unfoldable pub run : List Action → Model → Model
run [] m = m
run (a ∷ rest) m = let (r, m') = apply a m in run rest m'
