-- ===== src/Tests/Rounding.antt =====
-- tools/model/challenge-model.mjs where its sums are rounded: three challenges of the greatest odd stake.
use challenge_escrow_protoco.Prelude.{
  ℕ, ◌-◌, ◌^◌, String, ◌≡◌, refl, true, List, [], ◌∷◌, includes, Bool-cases, String-discrete,
  ℕ_discrete,
}
use challenge_escrow_protoco.Model.Doubles.{double}
use challenge_escrow_protoco.Model.Types.{side_a, Action, atomicity_failure}
use challenge_escrow_protoco.Model.Opening.{create, accept, accept_of}
use challenge_escrow_protoco.Model.Machine.{
  assert_invariants, check_from, check_challenge, thrown, Snapshot-discrete, dispatch, apply, run,
}
use challenge_escrow_protoco.Tests.Runs.{start, deadlines}

abbrev greatest_stake : ℕ
greatest_stake = 2 ^ 52 - 1

abbrev creation_of : String → Action
creation_of id = Action.create (record {
  id = id;
  nonce = id;
  caller = "alice";
  challenger = "alice";
  challenger_side = side_a;
  stake = greatest_stake;
  now = 100;
  schedule = deadlines;
})

abbrev acceptance_of : String → Action
acceptance_of id = Action.accept (record {
  id = id;
  caller = "bob";
  acceptor = "bob";
  permit_nonce = 0;
  permit_valid = true;
  expires_at = 109;
  now = 101;
})

abbrev before_last : List Action
before_last =
    creation_of "a" ∷ acceptance_of "a" ∷ creation_of "b" ∷ acceptance_of "b" ∷ creation_of "c" ∷ []

-- The liability, rounded after each stake, is not the rounded sum of what is outstanding.
liability_rounded :
    (run (acceptance_of "c" ∷ []) (run before_last start)).total_outstanding_liability
    ≡ 27021597764222972
unfolding run apply dispatch create accept accept_of includes double
liability_rounded = refl

-- So the acceptance of the third challenge, which `#accept` admits, makes `apply` throw.
third_acceptance_throws :
    (apply (acceptance_of "c") (run before_last start)).0 ≡ thrown atomicity_failure
unfolding run apply dispatch create accept accept_of includes double Snapshot-discrete
    String-discrete ℕ_discrete Bool-cases assert_invariants check_from check_challenge
third_acceptance_throws = refl
