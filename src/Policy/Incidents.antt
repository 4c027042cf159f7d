-- ===== src/Policy/Incidents.antt =====
-- tools/operations/authority-policy.mjs: `evaluateIncidentMatrix`.
pub mod Margins
use challenge_escrow_protoco.Prelude.{
  ℕ, zero, suc, ◌+◌, ◌-◌, String, Bool, Option, none, some, List, [], ◌∷◌, leb, str_eq, includes,
  if◌then◌else◌,
}
use challenge_escrow_protoco.Observer.Logs.{size}
use challenge_escrow_protoco.Policy.{PolicyCode, Member, Role, Policy, Context, number}
use challenge_escrow_protoco.Policy.Roles.{fingerprints}
use challenge_escrow_protoco.Policy.Validate.{validate_authority_policy}

-- The list of the unavailable members is as given: in a policy that is accepted it is sorted already.
pub record Incident : Type 0 where
  pub role : String
  pub unavailable : List String
  pub remaining : ℕ
  pub threshold : String
  pub quorum_available : Bool

pub data Decision : Type 0 where
  continue_with_reduced_margin fail_closed : Decision

-- The scenarios, with what is computed in them
pub record Incidents : Type 0 where
  pub policy_hash : String
  pub member_loss : Incident
  pub decision : Decision
  pub compromised : List String
  pub quorum_loss : Incident
  pub pauser_loss : Incident
  pub presented_epoch : ℕ
  pub expected_epoch : String

-- `crashed` is a TypeError, on a role or a member that is missing.
pub data Report : Type 0 where
  refused : PolicyCode → Report
  crashed : Report
  reported : Incidents → Report

unfoldable pub remaining_members : List String → List Member → List Member
unfolding includes
remaining_members us [] = []
remaining_members us (m ∷ ms) =
    let rest = remaining_members us ms in if includes us m.fingerprint then rest else m ∷ rest

-- `incidentRole`
unfoldable pub incident_role : Role → List String → Incident
unfolding remaining_members number
incident_role r unavailable =
    let remaining = size (remaining_members unavailable r.members) in
    record {
      role = r.role;
      unavailable = unavailable;
      remaining = remaining;
      threshold = r.threshold;
      quorum_available = leb (number r.threshold) remaining;
    }

-- `role`
unfoldable pub role_named : String → List Role → Option Role
role_named name [] = none
role_named name (r ∷ rs) = if str_eq r.role name then some r else role_named name rs

abbrev pub first_members : ℕ → List Member → List Member
first_members zero ms = []
first_members (suc n) [] = []
first_members (suc n) (m ∷ ms) = m ∷ first_members n ms

-- `lossCount`; a threshold exceeds no role of an accepted policy.
unfoldable pub loss_count : Role → ℕ
unfolding number
loss_count r = size r.members - number r.threshold + 1

unfoldable pub matrix : Policy → Role → Role → Role → Member → Member → Incidents
unfolding incident_role loss_count number
matrix p resolver arbiter pauser first compromised =
    let member_loss = incident_role resolver (first.fingerprint ∷ []) in
    record {
      policy_hash = p.policy_hash;
      member_loss = member_loss;
      decision = if member_loss.quorum_available then continue_with_reduced_margin else fail_closed;
      compromised = compromised.fingerprint ∷ [];
      quorum_loss =
          incident_role resolver
            (fingerprints (first_members (loss_count resolver) resolver.members));
      pauser_loss = incident_role pauser (fingerprints pauser.members);
      presented_epoch = number p.epoch - 1;
      expected_epoch = p.epoch;
    }

unfoldable pub report_members : Policy → Role → Role → Role → List Member → List Member → Report
unfolding matrix
report_members p resolver arbiter pauser (m ∷ ms) (a ∷ as_) =
    reported (matrix p resolver arbiter pauser m a)
report_members p resolver arbiter pauser _ _ = crashed

unfoldable pub report_roles : Policy → Option Role → Option Role → Option Role → Report
unfolding report_members
report_roles p (some resolver) (some arbiter) (some pauser) =
    report_members p resolver arbiter pauser resolver.members arbiter.members
report_roles p _ _ _ = crashed

abbrev pub report_accepted : Option PolicyCode → Policy → Report
unfolding report_roles role_named
report_accepted (some e) p = refused e
report_accepted none p =
    report_roles p (role_named "resolver" p.roles) (role_named "arbiter" p.roles)
      (role_named "pauser" p.roles)

-- `evaluateIncidentMatrix`
unfoldable pub evaluate_incident_matrix : (Policy → String) → Policy → Option Context → Report
unfolding validate_authority_policy report_accepted
evaluate_incident_matrix authority_policy_hash p context =
    report_accepted (validate_authority_policy authority_policy_hash p context) p
