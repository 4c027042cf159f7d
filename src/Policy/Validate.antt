-- ===== src/Policy/Validate.antt =====
-- tools/operations/authority-policy.mjs: `validateAuthorityPolicy` and `validateContext`.
use challenge_escrow_protoco.Prelude.{
  ℕ, ◌-◌, ◌*◌, ◌==◌, String, Bool, true, false, not, ◌&&◌, Option, none, some, List, [], ◌∷◌, ltb,
  leb, str_eq, if◌then◌else◌,
}
use challenge_escrow_protoco.Observer.Logs.{size}
use challenge_escrow_protoco.Policy.{
  PolicyCode, invalid_hash, wrong_schema, wrong_policy_id, lineage_mismatch, validity_window,
  role_set, capability_boundary, rotation_window, stale_epoch, policy_expired, policy_hash_mismatch,
  Role, Policy, Context, Check, ◌or_throw◌, thrown, ◌followed_by◌, number, decimal, uint64,
  is_lower_hash, is_policy_id,
}
use challenge_escrow_protoco.Policy.Roles.{roles_checks}

-- The checks of the predecessor by the epoch
unfoldable pub predecessor_checks : ℕ → Option String → List Check
unfolding is_lower_hash
predecessor_checks n none = (n == 1) or_throw lineage_mismatch ∷ []
predecessor_checks n (some h) =
    if n == 1
    then false or_throw lineage_mismatch ∷ []
    else is_lower_hash h or_throw invalid_hash
      ∷ not (str_eq h "0x0000000000000000000000000000000000000000000000000000000000000000")
        or_throw lineage_mismatch
      ∷ []

-- `lineage`
unfoldable pub lineage_checks : Policy → List Check
unfolding uint64 decimal predecessor_checks
lineage_checks p =
    decimal p.epoch
    followed_by uint64 p.announced_at
    followed_by uint64 p.valid_from
    followed_by uint64 p.valid_until
    followed_by (leb 1 (number p.epoch) or_throw lineage_mismatch ∷ [])
    followed_by predecessor_checks (number p.epoch) p.predecessor
    followed_by (ltb (number p.valid_from) (number p.valid_until) or_throw validity_window ∷ [])

abbrev pub role_names : List Role → List String
role_names [] = []
role_names (r ∷ rs) = r.role ∷ role_names rs

unfoldable pub same_texts : List String → List String → Bool
same_texts [] [] = true
same_texts (x ∷ xs) (y ∷ ys) = str_eq x y && same_texts xs ys
same_texts _ _ = false

abbrev pub role_order_names : List String
role_order_names = "arbiter" ∷ "pauser" ∷ "resolver" ∷ []

abbrev forbidden_names : List String
forbidden_names =
    "delegatecall" ∷ "owner-withdrawal" ∷ "payout-redirection" ∷ "proxy-upgrade" ∷ "token-rescue"
    ∷ []

-- `rotation`
unfoldable pub rotation_checks : Policy → List Check
unfolding uint64 number
rotation_checks p =
    uint64 p.minimum_delay
    followed_by uint64 p.maximum_epoch
    followed_by (leb 3600 (number p.minimum_delay) or_throw rotation_window
        ∷ ltb (number p.minimum_delay) (number p.maximum_epoch) or_throw rotation_window
        ∷ leb (number p.maximum_epoch) (365 * 24 * 60 * 60) or_throw rotation_window
        ∷ (leb (number p.announced_at) (number p.valid_from)
            && leb (number p.minimum_delay) (number p.valid_from - number p.announced_at))
          or_throw rotation_window
        ∷ leb (number p.valid_until - number p.valid_from) (number p.maximum_epoch)
          or_throw rotation_window
        ∷ [])

unfoldable pub same_predecessor : Option String → Option String → Bool
same_predecessor none none = true
same_predecessor (some a) (some b) = str_eq a b
same_predecessor _ _ = false

abbrev hash_checks : Option String → List Check
unfolding is_lower_hash
hash_checks none = []
hash_checks (some h) = is_lower_hash h or_throw invalid_hash ∷ []

-- `validateContext` and the checks of the context
unfoldable pub context_checks : Policy → Option Context → List Check
unfolding uint64 decimal hash_checks same_predecessor number
context_checks p none = []
context_checks p (some c) =
    uint64 c.observed_at
    followed_by decimal c.expected_epoch
    followed_by hash_checks c.expected_predecessor
    followed_by (str_eq c.expected_epoch p.epoch or_throw stale_epoch
        ∷ same_predecessor c.expected_predecessor p.predecessor or_throw lineage_mismatch
        ∷ (leb (number p.valid_from) (number c.observed_at)
            && ltb (number c.observed_at) (number p.valid_until))
          or_throw policy_expired
        ∷ [])

unfoldable pub opening_checks : Policy → List Check
unfolding is_policy_id is_lower_hash
opening_checks p =
    str_eq p.schema "challenge-escrow.authority-policy/v1" or_throw wrong_schema
    ∷ is_policy_id p.policy_id or_throw wrong_policy_id
    ∷ is_lower_hash p.policy_hash or_throw invalid_hash
    ∷ []

unfoldable pub set_of_roles_checks : List Role → List Check
unfolding same_texts
set_of_roles_checks rs =
    (size rs == 3) or_throw role_set
    ∷ same_texts (role_names rs) role_order_names or_throw PolicyCode.role_order
    ∷ []

unfoldable pub capability_checks : List String → List Check
unfolding same_texts
capability_checks names = same_texts names forbidden_names or_throw capability_boundary ∷ []

-- `authorityPolicyHash` is the hash of an external program, on the policy without its own hash.
module _ (authority_policy_hash : Policy → String) where
  unfoldable pub policy_checks : Policy → Option Context → List Check
  unfolding opening_checks lineage_checks set_of_roles_checks roles_checks capability_checks
      rotation_checks context_checks
  policy_checks p context =
      opening_checks p
      followed_by lineage_checks p
      followed_by set_of_roles_checks p.roles
      followed_by roles_checks [] p.roles
      followed_by capability_checks p.forbidden
      followed_by rotation_checks p
      followed_by context_checks p context
      followed_by (str_eq (authority_policy_hash p) p.policy_hash or_throw policy_hash_mismatch
          ∷ [])

  -- `validateAuthorityPolicy`: what it throws, if anything.
  unfoldable pub validate_authority_policy : Policy → Option Context → Option PolicyCode
  unfolding thrown policy_checks
  validate_authority_policy p context = thrown (policy_checks p context)
