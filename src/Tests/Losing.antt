-- ===== src/Tests/Losing.antt =====
-- tools/operations/authority-policy.mjs on a policy of three roles with three members each.
use challenge_escrow_protoco.Prelude.{◌≡◌, refl, String, Option, none, some, List, [], ◌∷◌}
use challenge_escrow_protoco.Portable.Evaluate.{order_of}
use challenge_escrow_protoco.Policy.{
  ◌followed_by◌, cross_role_overlap, policy_expired, Member, Role, Policy, Context,
}
use challenge_escrow_protoco.Policy.Validate.{validate_authority_policy}
use challenge_escrow_protoco.Policy.Incidents.{evaluate_incident_matrix}
use challenge_escrow_protoco.Policy.Incidents.Margins.{
  FailsClosed, evaluate_incident_matrix-FailsClosed,
}

abbrev member : String → String → Member
member f c = record { fingerprint = f; custody = c }

abbrev some_hash : String
some_hash = "0x1111111111111111111111111111111111111111111111111111111111111111"

abbrev hash_function : Policy → String
hash_function p = some_hash

abbrev role_of : String → String → String → String → Role
role_of name a b c = record {
  role = name;
  threshold = "2";
  members = member a "hardware" ∷ member b "institutional" ∷ member c "hardware" ∷ [];
}

abbrev arbiter : Role
arbiter =
    role_of "arbiter" "sha256:1111111111111111111111111111111111111111111111111111111111111111"
      "sha256:2222222222222222222222222222222222222222222222222222222222222222"
      "sha256:3333333333333333333333333333333333333333333333333333333333333333"

abbrev pauser : Role
pauser =
    role_of "pauser" "sha256:4444444444444444444444444444444444444444444444444444444444444444"
      "sha256:5555555555555555555555555555555555555555555555555555555555555555"
      "sha256:6666666666666666666666666666666666666666666666666666666666666666"

abbrev resolver : Role
resolver =
    role_of "resolver" "sha256:7777777777777777777777777777777777777777777777777777777777777777"
      "sha256:8888888888888888888888888888888888888888888888888888888888888888"
      "sha256:9999999999999999999999999999999999999999999999999999999999999999"

abbrev policy_of : List Role → Policy
policy_of rs = record {
  schema = "challenge-escrow.authority-policy/v1";
  policy_id = "authority-1";
  policy_hash = some_hash;
  epoch = "1";
  predecessor = none;
  announced_at = "1000";
  valid_from = "10000";
  valid_until = "20000";
  roles = rs;
  forbidden =
      "delegatecall" ∷ "owner-withdrawal" ∷ "payout-redirection" ∷ "proxy-upgrade" ∷ "token-rescue"
      ∷ [];
  minimum_delay = "3600";
  maximum_epoch = "86400";
}

abbrev policy : Policy
policy = policy_of (arbiter ∷ pauser ∷ resolver ∷ [])

abbrev at_time : String → Option Context
at_time t = some (record { observed_at = t; expected_epoch = "1"; expected_predecessor = none })

policy_accepted : validate_authority_policy hash_function policy (at_time "10000") ≡ none
unfolding validate_authority_policy ◌followed_by◌ order_of
policy_accepted = refl

policy_outlived :
    validate_authority_policy hash_function policy (at_time "20000") ≡ some policy_expired
unfolding validate_authority_policy ◌followed_by◌ order_of
policy_outlived = refl

-- The resolvers in the place of the pausers
members_shared :
    validate_authority_policy hash_function
      (policy_of (arbiter ∷ record resolver { role = "pauser" } ∷ resolver ∷ []))
      none
    ≡ some cross_role_overlap
unfolding validate_authority_policy ◌followed_by◌ order_of
members_shared = refl

evaluate_incident_matrix-FailsClosed_example :
    FailsClosed (evaluate_incident_matrix hash_function policy (at_time "10000"))
evaluate_incident_matrix-FailsClosed_example =
    evaluate_incident_matrix-FailsClosed hash_function policy (at_time "10000") policy_accepted
