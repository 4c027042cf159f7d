-- ===== src/Authority.antt =====
-- tools/liveness/authority-v2.mjs: the certificates of a set of authorities.
use mathlib.Core.Bool.{false≢true}
use challenge_escrow_protoco.Prelude.{
  ℕ, ◌+◌, ◌≤◌, ◌<◌, ◌==◌, String, ◌≡◌, Bool, true, false, not, ◌&&◌, ◌||◌, List, [], ◌∷◌, includes,
  str_eq, ltb, leb, refl, if◌then◌else◌, arith, eq_iff, str_eq_comm, subst, sym, ◌∙◌, Bool-cases,
  inl, inr,
}
use challenge_escrow_protoco.Observer.Logs.{size}

-- `POLICY`
pub record Policy : Type 0 where
  pub epoch : ℕ
  pub members : List String
  pub quorum : ℕ
  pub decision_window : ℕ

abbrev pub policy : Policy
policy = record {
  epoch = 7;
  members = "authority-a" ∷ "authority-b" ∷ "authority-c" ∷ [];
  quorum = 2;
  decision_window = 30;
}

-- The codes of `AuthorityRejection`.
pub data Refusal : Type 0 where
  authority_epoch_mismatch unknown_outcome evidence_lineage_missing certificate_expired : Refusal
  duplicate_authority_approval unknown_authority authority_quorum_missing : Refusal

pub record Request : Type 0 where
  pub challenge_id : String
  pub epoch : ℕ
  pub outcome : String
  pub evidence_hash : String
  pub parent_evidence_hash : String
  pub approvals : List String
  pub expires_at : ℕ
  pub now : ℕ

pub record Certificate : Type 0 where
  pub challenge_id : String
  pub epoch : ℕ
  pub outcome : String
  pub evidence_hash : String
  pub parent_evidence_hash : String
  pub approvals : List String
  pub expires_at : ℕ

pub data Answer : Type 0 where
  issued : Certificate → Answer
  refused : Refusal → Answer

-- `[...new Set(texts)]`, after the texts that were seen
unfoldable pub unique_after : List String → List String → List String
unique_after seen [] = []
unique_after seen (x ∷ xs) =
    let again = unique_after seen xs in
    let rest = unique_after (x ∷ seen) xs in if includes seen x then again else x ∷ rest

abbrev pub all_members : List String → Bool
all_members [] = true
all_members (x ∷ xs) = includes policy.members x && all_members xs

-- `certificate`
unfoldable pub certificate : Request → Answer
certificate r =
    let unique = unique_after [] r.approvals in
    if not (r.epoch == policy.epoch)
    then refused Refusal.authority_epoch_mismatch
    else if not (includes ("A" ∷ "B" ∷ "VOID" ∷ []) r.outcome)
    then refused Refusal.unknown_outcome
    else if str_eq r.evidence_hash "" || str_eq r.parent_evidence_hash ""
    then refused Refusal.evidence_lineage_missing
    else if leb r.expires_at r.now
    then refused Refusal.certificate_expired
    else if not (size unique == size r.approvals)
    then refused Refusal.duplicate_authority_approval
    else if not (all_members unique)
    then refused Refusal.unknown_authority
    else if ltb (size unique) policy.quorum
    then refused Refusal.authority_quorum_missing
    else issued (record {
      challenge_id = r.challenge_id;
      epoch = r.epoch;
      outcome = r.outcome;
      evidence_hash = r.evidence_hash;
      parent_evidence_hash = r.parent_evidence_hash;
      approvals = unique;
      expires_at = r.expires_at;
    })

abbrev one_if : Bool → ℕ
one_if b = if b then 1 else 0

-- How many of the members a list names.
abbrev named : List String → ℕ
named xs =
    one_if (includes xs "authority-a")
    + one_if (includes xs "authority-b")
    + one_if (includes xs "authority-c")

-- What was seen is not kept again.
unique_after-absent :
    (seen xs : List String) (m : String)
    → includes seen m ≡ true
    → includes (unique_after seen xs) m ≡ false
unfolding includes unique_after
unique_after-absent seen [] m h = refl
unique_after-absent seen (x ∷ xs) m h = elim (Bool-cases (includes seen x)) [
  | inl known ↦ rw known (unique_after-absent seen xs m h)
  | inr new ↦ elim (Bool-cases (str_eq x m)) [
    | inl same ↦
        absurd
          (false≢true (sym new ∙ subst (λ y. includes seen y ≡ true) (sym ((eq_iff x m).0 same)) h))
    | inr other ↦
        let rest : includes (unique_after (x ∷ seen) xs) m ≡ false =
          unique_after-absent (x ∷ seen) xs m (rw other h) in
        rw (new, other) rest
  ]
]

-- Distinct members are no more than the members that are named.
size-unique_after :
    (seen xs : List String)
    → all_members (unique_after seen xs) ≡ true
    → size (unique_after seen xs) ≤ named (unique_after seen xs)
unfolding includes unique_after
size-unique_after seen [] e = omega arith
size-unique_after seen (x ∷ xs) e = elim (Bool-cases (includes seen x)) [
  | inl known ↦ rw known (size-unique_after seen xs (rw known at e))
  | inr new ↦
      let kept = rw new at e in
      rw new (
        ground (
          arith,
          size-unique_after (x ∷ seen) xs,
          unique_after-absent (x ∷ seen) xs "authority-a",
          unique_after-absent (x ∷ seen) xs "authority-b",
          unique_after-absent (x ∷ seen) xs "authority-c",
          str_eq_comm x "authority-a",
          str_eq_comm x "authority-b",
          str_eq_comm x "authority-c",
          kept,
        ))
]

-- A certificate that was issued: for the epoch of the policy, before its expiry, by the approvals of
-- the request, which are members, and no fewer than the quorum.
pub record IsValid (r : Request) (c : Certificate) : Type 0 where
  pub current : c.epoch ≡ policy.epoch
  pub in_time : r.now < c.expires_at
  pub counted : size c.approvals ≡ size r.approvals
  pub members : all_members c.approvals ≡ true
  pub quorum : policy.quorum ≤ size c.approvals
  pub named_members : policy.quorum ≤ named c.approvals

-- Every certificate that is issued is for the epoch of the policy and not expired; each approval of the
-- request counts once, all are members, and no fewer than the quorum are.
pub certificate-IsValid : (r : Request) (c : Certificate) → certificate r ≡ issued c → IsValid r c
unfolding certificate
certificate-IsValid r c e = ground (arith, size-unique_after [] r.approvals)

-- A member that two lists name.
abbrev pub Common : List String → List String → Type 0
Common xs ys =
    (m : String) × (includes policy.members m ≡ true)
    × (includes xs m ≡ true)
    × (includes ys m ≡ true)

named-Common : (xs ys : List String) → 2 ≤ named xs → 2 ≤ named ys → Common xs ys
unfolding includes
named-Common xs ys p q =
    elim (Bool-cases (includes xs "authority-a" && includes ys "authority-a")) [
      | inl first ↦ ("authority-a", refl, ground arith, ground arith)
      | inr not_first ↦ elim (Bool-cases (includes xs "authority-b" && includes ys "authority-b")) [
        | inl second ↦ ("authority-b", refl, ground arith, ground arith)
        | inr not_second ↦ ("authority-c", refl, ground arith, ground arith)
      ]
    ]

-- Any two certificates that are issued have the approval of a common member.
pub certificates-meet :
    (r s : Request) (c d : Certificate)
    → certificate r ≡ issued c
    → certificate s ≡ issued d
    → Common c.approvals d.approvals
certificates-meet r s c d e f =
    named-Common c.approvals d.approvals (certificate-IsValid r c e).named_members
      (certificate-IsValid s d f).named_members
