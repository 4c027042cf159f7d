-- ===== src/Policy/Incidents/Margins.antt =====
-- tools/operations/authority-policy.mjs: what the incidents of an accepted policy show.
use challenge_escrow_protoco.Prelude.{
  ℕ, zero, suc, ◌+◌, ◌≤◌, ◌≡◌, refl, subst, String, Bool, true, false, Option, none, some, List, [],
  ◌∷◌, ◌++◌, str_eq, includes, inl, inr, Bool-cases, arith, if◌then◌else◌, eq_refl, eq_iff,
}
use challenge_escrow_protoco.Observer.Logs.{size}
use challenge_escrow_protoco.Policy.{
  PolicyCode, Member, Role, Policy, Context, Check, thrown, ◌followed_by◌, number,
}
use challenge_escrow_protoco.Policy.Roles.{fingerprints, strength_checks, role_checks, roles_checks}
use challenge_escrow_protoco.Policy.Validate.{
  role_names, role_order_names, set_of_roles_checks, same_texts, policy_checks,
  validate_authority_policy,
}
use challenge_escrow_protoco.Policy.Incidents.{
  Incidents, Report, reported, remaining_members, incident_role, role_named, first_members,
  loss_count, matrix, report_members, report_roles, report_accepted, evaluate_incident_matrix,
}

-- None of the checks throws.
record Passes (cs : List Check) : Type 0 where
  at : thrown cs ≡ none

thrown-if :
    (b : Bool) (e : PolicyCode) (t : Option PolicyCode)
    → (if b then t else some e) ≡ none
    → (b ≡ true) × (t ≡ none)
thrown-if true e t h = (refl, h)
thrown-if false e t h = absurd cc

thrown-append :
    (cs ds : List Check) → thrown (cs ++ ds) ≡ none → (thrown cs ≡ none) × (thrown ds ≡ none)
unfolding thrown
thrown-append [] ds h = (refl, h)
thrown-append (c ∷ cs) ds h =
    let (e, rest) = thrown-if c.holds c.on_failure (thrown (cs ++ ds)) h in
    rw e (thrown-append cs ds rest)

Passes-left : (cs ds : List Check) → Passes (cs followed_by ds) → Passes cs
unfolding ◌followed_by◌
Passes-left cs ds h = record { at = (thrown-append cs ds h.at).0 }

Passes-right : (cs ds : List Check) → Passes (cs followed_by ds) → Passes ds
unfolding ◌followed_by◌
Passes-right cs ds h = record { at = (thrown-append cs ds h.at).1 }

-- A role has more than one member to agree, and enough members.
IsStrong : Role → Type 0
IsStrong r = (2 ≤ number r.threshold) × (number r.threshold ≤ size r.members)

strength_checks-IsStrong : (r : Role) → Passes (strength_checks r) → IsStrong r
unfolding strength_checks thrown IsStrong
strength_checks-IsStrong r h = let all = h.at in (ground arith, ground arith)

role_checks-IsStrong :
    (globals : List String) (r : Role) → Passes (role_checks globals r) → IsStrong r
unfolding role_checks
role_checks-IsStrong globals r h = strength_checks-IsStrong r (Passes-left _ _ (Passes-right _ _ h))

roles_checks-IsStrong :
    (name : String) (globals : List String) (rs : List Role) (r : Role)
    → Passes (roles_checks globals rs)
    → role_named name rs ≡ some r
    → IsStrong r
unfolding roles_checks role_named
roles_checks-IsStrong name globals [] r h found = absurd cc
roles_checks-IsStrong name globals (s ∷ rs) r h found = elim (Bool-cases (str_eq s.role name)) [
  | inl e ↦
      let chosen : some s ≡ some r = ground (arith, found, e) in
      let same : s ≡ r = cc in subst IsStrong same (role_checks-IsStrong _ s (Passes-left _ _ h))
  | inr e ↦
      roles_checks-IsStrong name _ rs r (Passes-right _ _ h)
        (let other : role_named name rs ≡ some r = ground (arith, found, e) in other)
]

-- Members that are listed do not remain.
Covers : List String → List String → Type 0
Covers us [] = Unit {0}
Covers us (f ∷ fs) = (includes us f ≡ true) × Covers us fs

Covers-cons : (u : String) (us fs : List String) → Covers us fs → Covers (u ∷ us) fs
unfolding Covers includes
Covers-cons u us [] h = tt
Covers-cons u us (f ∷ fs) (h, hs) = (ground (arith, h), Covers-cons u us fs hs)

Covers-self : (fs : List String) → Covers fs fs
unfolding Covers includes
Covers-self [] = tt
Covers-self (f ∷ fs) = (rw (eq_refl f) refl, Covers-cons f fs fs (Covers-self fs))

size-remaining_members :
    (us : List String) (ms : List Member) → size (remaining_members us ms) ≤ size ms
unfolding remaining_members
size-remaining_members us [] = omega arith
size-remaining_members us (m ∷ ms) = ground (arith, size-remaining_members us ms)

remaining_members-first :
    (us : List String) (n : ℕ) (ms : List Member)
    → Covers us (fingerprints (first_members n ms))
    → n ≤ size ms
    → size (remaining_members us ms) + n ≤ size ms
unfolding remaining_members Covers
remaining_members-first us zero ms h few = let le = size-remaining_members us ms in omega arith
remaining_members-first us (suc n) [] h few = absurd (omega arith)
remaining_members-first us (suc n) (m ∷ ms) (h, hs) few =
    rw h (let less = remaining_members-first us n ms hs (omega arith) in omega arith)

remaining_members-all :
    (us : List String) (ms : List Member)
    → Covers us (fingerprints ms)
    → size (remaining_members us ms) ≡ 0
unfolding remaining_members Covers
remaining_members-all us [] h = refl
remaining_members-all us (m ∷ ms) (h, hs) = rw h (remaining_members-all us ms hs)

role_named-includes :
    (name : String) (rs : List Role)
    → includes (role_names rs) name ≡ true
    → (r : Role) × (role_named name rs ≡ some r)
unfolding role_named includes
role_named-includes name [] h = absurd cc
role_named-includes name (r ∷ rs) h = elim (Bool-cases (str_eq r.role name)) [
  | inl e ↦ rw e (r, refl)
  | inr e ↦ rw e (
      role_named-includes name rs
        (let rest : includes (role_names rs) name ≡ true = ground (arith, h, e) in rest))
]

same_texts-equal : (xs ys : List String) → same_texts xs ys ≡ true → xs ≡ ys
unfolding same_texts
same_texts-equal [] [] h = refl
same_texts-equal [] (y ∷ ys) h = absurd cc
same_texts-equal (x ∷ xs) [] h = absurd cc
same_texts-equal (x ∷ xs) (y ∷ ys) h =
    let first : str_eq x y ≡ true = ground (arith, h) in
    let rest : same_texts xs ys ≡ true = ground (arith, h) in
    rw ((eq_iff x y).0 first, same_texts-equal xs ys rest) refl

quorum_lost :
    (r : Role)
    → IsStrong r
    → (incident_role r (fingerprints (first_members (loss_count r) r.members))).quorum_available
      ≡ false
unfolding IsStrong incident_role loss_count
quorum_lost r (least, most) =
    let few =
      remaining_members-first (fingerprints (first_members (loss_count r) r.members)) (loss_count r)
        r.members (Covers-self _) (omega arith) in
    ground arith

all_lost :
    (r : Role) → IsStrong r → (incident_role r (fingerprints r.members)).quorum_available ≡ false
unfolding IsStrong incident_role
all_lost r (least, most) =
    let gone = remaining_members-all (fingerprints r.members) r.members (Covers-self _) in
    ground arith

set_of_roles_checks-names :
    (rs : List Role) → Passes (set_of_roles_checks rs) → role_names rs ≡ role_order_names
unfolding set_of_roles_checks thrown
set_of_roles_checks-names rs h =
    let all = h.at in same_texts-equal (role_names rs) role_order_names (ground arith)

-- An incident matrix in which a role that lost too many members has no quorum
unfoldable pub FailsClosed : Report → Type 0
FailsClosed report =
    (i : Incidents) × (report ≡ reported i)
    × (i.quorum_loss.quorum_available ≡ false)
    × (i.pauser_loss.quorum_available ≡ false)

report_members-FailsClosed :
    (p : Policy) (resolver arbiter pauser : Role) (ms cs : List Member)
    → 2 ≤ size ms
    → 2 ≤ size cs
    → IsStrong resolver
    → IsStrong pauser
    → FailsClosed (report_members p resolver arbiter pauser ms cs)
unfolding FailsClosed report_members matrix
report_members-FailsClosed p resolver arbiter pauser [] cs m c r u = absurd (omega arith)
report_members-FailsClosed p resolver arbiter pauser (m ∷ ms) [] k l r u = absurd (omega arith)
report_members-FailsClosed p resolver arbiter pauser (m ∷ ms) (c ∷ cs) k l r u =
    (matrix p resolver arbiter pauser m c, refl, quorum_lost resolver r, all_lost pauser u)

report_roles-FailsClosed :
    (p : Policy) (resolver arbiter pauser : Role)
    → IsStrong resolver
    → IsStrong arbiter
    → IsStrong pauser
    → FailsClosed (report_roles p (some resolver) (some arbiter) (some pauser))
unfolding report_roles IsStrong
report_roles-FailsClosed p resolver arbiter pauser r a u =
    report_members-FailsClosed p resolver arbiter pauser resolver.members arbiter.members
      (omega (arith, r.0, r.1)) (omega (arith, a.0, a.1)) r u

module _ (authority_policy_hash : Policy → String) where
  accepted_role :
      (name : String) (p : Policy) (context : Option Context)
      → includes role_order_names name ≡ true
      → validate_authority_policy authority_policy_hash p context ≡ none
      → (r : Role) × (role_named name p.roles ≡ some r) × IsStrong r
  unfolding validate_authority_policy policy_checks
  accepted_role name p context known accepted =
      let passes : Passes (policy_checks authority_policy_hash p context) = record {
        at = accepted;
      } in
      let after = Passes-right _ _ (Passes-right _ _ passes) in
      let names = set_of_roles_checks-names p.roles (Passes-left _ _ after) in
      let (r, found) = role_named-includes name p.roles (rw names known) in
      (
        r,
        found,
        roles_checks-IsStrong name [] p.roles r (Passes-left _ _ (Passes-right _ _ after)) found,
      )

  -- Of a policy that `validateAuthorityPolicy` accepts, `evaluateIncidentMatrix` reports the incidents,
  -- without a TypeError, and in them the resolvers after the loss of as many members as `lossCount`, and
  -- the pausers after the loss of all, have no quorum.
  pub evaluate_incident_matrix-FailsClosed :
      (p : Policy) (context : Option Context)
      → validate_authority_policy authority_policy_hash p context ≡ none
      → FailsClosed (evaluate_incident_matrix authority_policy_hash p context)
  unfolding evaluate_incident_matrix report_accepted
  evaluate_incident_matrix-FailsClosed p context accepted =
      let (resolver, r, rs) = accepted_role "resolver" p context refl accepted in
      let (arbiter, a, as_) = accepted_role "arbiter" p context refl accepted in
      let (pauser, u, us) = accepted_role "pauser" p context refl accepted in
      rw (accepted, r, a, u) (report_roles-FailsClosed p resolver arbiter pauser rs as_ us)
