-- ===== src/Policy/Roles.antt =====
-- tools/operations/authority-policy.mjs: the checks of the roles and of their members.
use challenge_escrow_protoco.Prelude.{
  ℕ, ◌+◌, ◌*◌, ◌==◌, String, Bool, true, false, not, ◌&&◌, List, [], ◌∷◌, ◌++◌, ltb, leb, includes,
  if◌then◌else◌,
}
use challenge_escrow_protoco.Observer.Logs.{size}
use challenge_escrow_protoco.Portable.Evaluate.{Order, below, compare_code_points}
use challenge_escrow_protoco.Policy.{
  PolicyCode, unsafe_threshold, invalid_threshold, custody_class, duplicate_member, member_order,
  custody_concentration, cross_role_overlap, Member, Role, Check, ◌or_throw◌, ◌followed_by◌, number,
  decimal, fingerprint,
}

abbrev pub fingerprints : List Member → List String
fingerprints [] = []
fingerprints (m ∷ ms) = m.fingerprint ∷ fingerprints ms

abbrev pub custody_modes : List Member → List String
custody_modes [] = []
custody_modes (m ∷ ms) = m.custody ∷ custody_modes ms

-- `new Set(list).size`
unfoldable pub set_size : List String → ℕ
unfolding includes
set_size [] = 0
set_size (x ∷ xs) = if includes xs x then set_size xs else 1 + set_size xs

abbrev is_below : Order → Bool
is_below below = true
is_below _ = false

unfoldable pub is_ascending : List String → Bool
unfolding compare_code_points
is_ascending [] = true
is_ascending (x ∷ []) = true
is_ascending (x ∷ (y ∷ ys)) = is_below (compare_code_points x y) && is_ascending (y ∷ ys)

unfoldable pub member_checks : List Member → List Check
unfolding fingerprint includes
member_checks [] = []
member_checks (m ∷ ms) =
    fingerprint m.fingerprint
    followed_by (includes ("hardware" ∷ "institutional" ∷ "offline-recovery" ∷ []) m.custody
          or_throw custody_class
        ∷ member_checks ms)

-- The checks of a role that its members follow
unfoldable pub strength_checks : Role → List Check
unfolding number
strength_checks r =
    (leb 2 (number r.threshold) or_throw unsafe_threshold
      ∷ (leb 2 (size r.members) && leb (size r.members) 7) or_throw PolicyCode.member_count
      ∷ leb (number r.threshold) (size r.members) or_throw invalid_threshold
      ∷ ltb (size r.members) (number r.threshold * 2) or_throw unsafe_threshold
      ∷ [])

unfoldable pub set_checks : List Member → List Check
unfolding set_size is_ascending
set_checks ms =
    (set_size (fingerprints ms) == size (fingerprints ms)) or_throw duplicate_member
    ∷ is_ascending (fingerprints ms) or_throw member_order
    ∷ leb 2 (set_size (custody_modes ms)) or_throw custody_concentration
    ∷ []

-- `globalFingerprints`: those of the roles before.
unfoldable pub overlap_checks : List String → List String → List Check
unfolding includes
overlap_checks globals [] = []
overlap_checks globals (f ∷ fs) =
    not (includes globals f) or_throw cross_role_overlap ∷ overlap_checks (f ∷ globals) fs

unfoldable pub role_checks : List String → Role → List Check
unfolding decimal strength_checks member_checks set_checks overlap_checks
role_checks globals r =
    decimal r.threshold
    followed_by strength_checks r
    followed_by member_checks r.members
    followed_by set_checks r.members
    followed_by overlap_checks globals (fingerprints r.members)

unfoldable pub roles_checks : List String → List Role → List Check
unfolding role_checks
roles_checks globals [] = []
roles_checks globals (r ∷ rs) =
    role_checks globals r followed_by roles_checks (fingerprints r.members ++ globals) rs
