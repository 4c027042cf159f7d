-- ===== src/Tests/Approving.antt =====
-- tools/liveness/authority-v2.mjs on two certificates and on a repeated approval.
use challenge_escrow_protoco.Prelude.{String, ◌≡◌, refl, List, [], ◌∷◌, includes}
use challenge_escrow_protoco.Authority.{
  Request, Certificate, Refusal, issued, refused, unique_after, certificate, IsValid,
  certificate-IsValid, Common, certificates-meet,
}

abbrev asking : List String → Request
asking approvals = record {
  challenge_id = "v2-full-quorum";
  epoch = 7;
  outcome = "A";
  evidence_hash = "evidence";
  parent_evidence_hash = "parent";
  approvals = approvals;
  expires_at = 1030;
  now = 1008;
}

abbrev granted : List String → Certificate
granted approvals = record {
  challenge_id = "v2-full-quorum";
  epoch = 7;
  outcome = "A";
  evidence_hash = "evidence";
  parent_evidence_hash = "parent";
  approvals = approvals;
  expires_at = 1030;
}

abbrev first_two : List String
first_two = "authority-a" ∷ "authority-b" ∷ []

abbrev last_two : List String
last_two = "authority-c" ∷ "authority-b" ∷ []

first_issued : certificate (asking first_two) ≡ issued (granted first_two)
unfolding certificate unique_after includes
first_issued = refl

last_issued : certificate (asking last_two) ≡ issued (granted last_two)
unfolding certificate unique_after includes
last_issued = refl

repeated_refused :
    certificate (asking ("authority-a" ∷ "authority-a" ∷ []))
    ≡ refused Refusal.duplicate_authority_approval
unfolding certificate unique_after includes
repeated_refused = refl

certificate-IsValid_example : IsValid (asking first_two) (granted first_two)
certificate-IsValid_example =
    certificate-IsValid (asking first_two) (granted first_two) first_issued

certificates-meet_example : Common first_two last_two
certificates-meet_example =
    certificates-meet (asking first_two) (asking last_two) (granted first_two) (granted last_two)
      first_issued last_issued
