-- ===== src/Model/Replies.antt =====
-- `apply` and runs of actions: the replies of the model from a valid state.
use challenge_escrow_protoco.Prelude.{
  ◌≡◌, refl, Bool, true, false, String, List, [], ◌∷◌, subst, sym, ap, arith,
}
use mathlib.Core.Logic.{ite, if_pos}
use challenge_escrow_protoco.Model.Types.{Action, Model}
use challenge_escrow_protoco.Model.Exec.{Result, ok, rejected, crashed}
use challenge_escrow_protoco.Model.Machine.{
  Reply, accepted, refused, thrown, snapshot, Snapshot-discrete, check_after, reply, answer,
  dispatch, apply, new, run,
}
use challenge_escrow_protoco.Model.Invariant.{
  HasEntries, IsSafe, IsValid, Evolves, Evolves-refl, Good, assert_invariants_pass,
}
use challenge_escrow_protoco.Model.Actions.{dispatch-Good}

-- What a reply from a valid model may be: a success shows the new state, which is valid; a refusal
-- shows the old state, which stays; nothing else is thrown.
abbrev pub Replies : Model → Reply × Model → Type 0
Replies m (accepted s, m') = IsValid m' × Evolves m m' × (s ≡ snapshot m')
Replies m (refused c s, m') = (s ≡ snapshot m) × (m' ≡ m)
Replies m (thrown x, m') = ⊥

abbrev same_snapshot : Model → Model → Bool
same_snapshot m m' = ite (Snapshot-discrete (snapshot m) (snapshot m')) true false

-- The comparison of the snapshots finds no difference where nothing has changed.
same_snapshot_self : (m m' : Model) → m' ≡ m → same_snapshot m m' ≡ true
same_snapshot_self m m' e =
    if_pos (Snapshot-discrete (snapshot m) (snapshot m')) (ap snapshot (sym e)) true false

checked : (m : Model) → IsValid m → check_after (ok tt) m ≡ ok tt
checked m v = rw (assert_invariants_pass m v, check_after)

replied :
    (m m' : Model) (r : Result (Unit {0}))
    → IsValid m
    → IsSafe m'
    → Good m (r, m')
    → Replies m (reply (same_snapshot m m') (snapshot m') (check_after r m'), m')
replied m m' (ok u) v safe good =
    let valid : IsValid m' = good.2 v safe in
    subst (λ r. Replies m (reply (same_snapshot m m') (snapshot m') r, m')) (sym (checked m' valid))
      (valid, good.1, refl)
replied m m' (rejected c) v safe e =
    subst (λ b. Replies m (reply b (snapshot m') (rejected c), m'))
      (sym (same_snapshot_self m m' e)) (ap snapshot e, e)
replied m m' (crashed x) v safe absurdity = absurd absurdity

-- From a valid model every action that leaves it safe is accepted into a valid model, or refused with
-- the model as it was: the assertions of `assertInvariants` and the comparison of snapshots in `apply`
-- do not fail, and no read goes through null.
pub apply-Replies :
    (a : Action) (m : Model) → IsValid m → IsSafe (apply a m).1 → Replies m (apply a m)
unfolding apply
apply-Replies a m v safe =
    let (r, m') = dispatch a m in replied m m' r v safe (dispatch-Good a m v.entries)

pub stays : (m : Model) (r : Reply) (m' : Model) → IsValid m → Replies m (r, m') → IsValid m'
stays m (accepted s) m' v h = h.0
stays m (refused c s) m' v h = subst IsValid (sym h.1) v
stays m (thrown x) m' v h = absurd h

-- After each action, what is outstanding comes to a safe integer.
abbrev pub StaysSafe : List Action → Model → Type 0
StaysSafe [] m = Unit {0}
StaysSafe (a ∷ rest) m = IsSafe (apply a m).1 × StaysSafe rest (apply a m).1

-- A safe run from a valid model ends in a valid model.
pub run-IsValid :
    (actions : List Action) (m : Model) → IsValid m → StaysSafe actions m → IsValid (run actions m)
unfolding run
run-IsValid [] m v safe = v
run-IsValid (a ∷ rest) m v (safe, more) =
    let (r, m') = apply a m in run-IsValid rest m' (stays m r m' v (apply-Replies a m v safe)) more

-- What an action leaves, whether the sums are safe or not, and whether `apply` throws or not.
kept :
    (m : Model) (run : Result (Unit {0}) × Model)
    → HasEntries m
    → Good m run
    → HasEntries run.1 × Evolves m run.1
kept m (ok u, m') v good = (good.0, good.1)
kept m (rejected c, m') v e =
    (subst HasEntries (sym e) v, subst (Evolves m) (sym e) (Evolves-refl m))
kept m (crashed x, m') v absurdity = absurd absurdity

pub apply-kept :
    (a : Action) (m : Model) → HasEntries m → HasEntries (apply a m).1 × Evolves m (apply a m).1
unfolding apply
apply-kept a m v = kept m (dispatch a m) v (dispatch-Good a m v)

pub run-HasEntries : (actions : List Action) (m : Model) → HasEntries m → HasEntries (run actions m)
unfolding run
run-HasEntries [] m v = v
run-HasEntries (a ∷ rest) m v = run-HasEntries rest (apply a m).1 (apply-kept a m v).0

reply_of_ok :
    (m m' : Model) (run : Result (Unit {0}) × Model)
    → IsValid m
    → IsSafe m'
    → Good m run
    → run ≡ (ok tt, m')
    → answer m run ≡ (accepted (snapshot m'), m')
reply_of_ok m m' (ok u, m1) v safe good e =
    let same : m1 ≡ m' = cc in
    let valid : IsValid m' = subst IsValid same (good.2 v (subst IsSafe (sym same) safe)) in
    cc (checked m' valid, same)
reply_of_ok m m' (rejected c, m1) v safe good e = cc
reply_of_ok m m' (crashed x, m1) v safe good e = cc

-- A handler that succeeds on a valid model, and leaves it safe, is accepted by `apply`.
pub apply_of_ok :
    (a : Action) (m m' : Model)
    → IsValid m
    → IsSafe m'
    → dispatch a m ≡ (ok tt, m')
    → apply a m ≡ (accepted (snapshot m'), m')
unfolding apply
apply_of_ok a m m' v safe e = reply_of_ok m m' (dispatch a m) v safe (dispatch-Good a m v.entries) e

pub new-IsValid : (resolver arbiter pauser : String) → IsValid (new resolver arbiter pauser)
new-IsValid resolver arbiter pauser = record { entries = tt; solvent = refl; safe = omega arith }

-- A new model never throws, as long as what is outstanding comes to a safe integer after each action:
-- the next action is accepted with the invariant kept and every challenge moved along the diagram, or it
-- is refused and the model stays as it was; no read through null is met, no assertion of
-- `assertInvariants` fails, and no refused action has changed the snapshot. Beyond the safe integers
-- the sums are rounded, and the assertion of the total liability may fail.
pub run-Replies :
    (resolver arbiter pauser : String) (actions : List Action) (a : Action)
    → StaysSafe actions (new resolver arbiter pauser)
    → IsSafe (apply a (run actions (new resolver arbiter pauser))).1
    → let m = run actions (new resolver arbiter pauser) in Replies m (apply a m)
run-Replies resolver arbiter pauser actions a safe last =
    let start = new resolver arbiter pauser in
    apply-Replies a (run actions start)
      (run-IsValid actions start (new-IsValid resolver arbiter pauser) safe) last
