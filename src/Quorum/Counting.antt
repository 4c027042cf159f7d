-- ===== src/Quorum/Counting.antt =====
-- The groups of tools/client/rpc.ts count the endpoints that report a block.
use challenge_escrow_protoco.Prelude.{
  ℕ, ◌+◌, ◌≤◌, max, String, ◌≡◌, refl, Bool, true, Option, none, some, List, [], ◌∷◌, ◌++◌, arith,
  eq_iff, eq_refl, if◌then◌else◌,
}
use challenge_escrow_protoco.Observer.Types.{Header}
use challenge_escrow_protoco.Observer.Hex.{lower}
use challenge_escrow_protoco.Observer.Headers.{same_header}
use challenge_escrow_protoco.Observer.Logs.{size}
use challenge_escrow_protoco.Quorum.Types.{Tag, EndpointSnapshot, Group}
use challenge_escrow_protoco.Quorum.Head.{
  vote, insert_name, sort_names, join_group, add_vote, group_from, insert_group, arrange,
}

-- Blocks with one key are alike for every third one.
pub same_header-swap : (a c b : Header) → same_header a c ≡ true → same_header a b ≡ same_header c b
unfolding same_header
same_header-swap a c b e = ground (
  arith,
  eq_iff (lower a.hash) (lower c.hash),
  eq_iff (lower a.parent_hash) (lower c.parent_hash),
  eq_iff (lower a.hash) (lower b.hash),
  eq_iff (lower a.parent_hash) (lower b.parent_hash),
  eq_iff (lower c.hash) (lower b.hash),
  eq_iff (lower c.parent_hash) (lower b.parent_hash),
)

pub same_header_refl : (a : Header) → same_header a a ≡ true
unfolding same_header
same_header_refl a = ground (arith, eq_refl (lower a.hash), eq_refl (lower a.parent_hash))

abbrev pub one_if : Bool → ℕ
one_if b = if b then 1 else 0

abbrev pub vote_for : Header → Option Header → ℕ
vote_for b none = 0
vote_for b (some h) = one_if (same_header h b)

-- How many endpoints without an error report a block.
abbrev pub support : Tag → Header → List EndpointSnapshot → ℕ
support tag b [] = 0
support tag b (e ∷ es) = vote_for b (vote tag e) + support tag b es

-- How many names the groups of a block hold.
abbrev pub held : Header → List Group → ℕ
held b [] = 0
held b (g ∷ gs) = (if same_header g.block b then size g.providers else 0) + held b gs

-- How many groups a block has.
abbrev pub copies : Header → List Group → ℕ
copies b [] = 0
copies b (g ∷ gs) = one_if (same_header g.block b) + copies b gs

-- How many names there are.
abbrev pub total : List Group → ℕ
total [] = 0
total (g ∷ gs) = size g.providers + total gs

size-append : (xs : List String) (x : String) → size (xs ++ (x ∷ [])) ≡ size xs + 1
size-append [] x = refl
size-append (y ∷ ys) x = omega (arith, size-append ys x)

module _ (b block : Header) (name : String) where
  held-join_group :
      (gs : List Group)
      → held b (join_group block name gs) ≡ held b gs + one_if (same_header block b)
  unfolding join_group
  held-join_group [] = ground arith
  held-join_group (g ∷ gs) =
      ground
        (arith, held-join_group gs, same_header-swap g.block block b, size-append g.providers name)

  copies-join_group :
      (gs : List Group)
      → copies b (join_group block name gs)
        ≡ (if same_header block b then max 1 (copies b gs) else copies b gs)
  unfolding join_group
  copies-join_group [] = ground arith
  copies-join_group (g ∷ gs) = ground (
    arith,
    copies-join_group gs,
    same_header-swap g.block block b,
    same_header-swap g.block b block,
    same_header-swap block b block,
    same_header_refl block,
  )

  total-join_group : (gs : List Group) → total (join_group block name gs) ≡ total gs + 1
  unfolding join_group
  total-join_group [] = refl
  total-join_group (g ∷ gs) = ground (arith, total-join_group gs, size-append g.providers name)

-- The counts after the loop over the endpoints.
pub record Counts (tag : Tag) (b : Header) (es : List EndpointSnapshot) (before after : List Group)
    : Type 0 where
  pub supported : held b after ≡ held b before + support tag b es
  pub single : copies b before ≤ 1 → copies b after ≤ 1
  pub bounded : total after ≤ total before + size es

add_vote-counts :
    (b : Header) (v : Option Header) (name : String) (gs : List Group)
    → (held b (add_vote v name gs) ≡ held b gs + vote_for b v)
      × (copies b gs ≤ 1 → copies b (add_vote v name gs) ≤ 1)
      × (total (add_vote v name gs) ≤ total gs + 1)
unfolding add_vote
add_vote-counts b none name gs = (omega arith, (λ h. h), omega arith)
add_vote-counts b (some block) name gs = (
  held-join_group b block name gs,
  (λ h. ground (arith, copies-join_group b block name gs)),
  omega (arith, total-join_group b block name gs),
)

pub group_from-Counts :
    (tag : Tag) (b : Header) (es : List EndpointSnapshot) (gs : List Group)
    → Counts tag b es gs (group_from tag es gs)
unfolding group_from
group_from-Counts tag b [] gs = record {
  supported = omega arith;
  single = λ h. h;
  bounded = omega arith;
}
group_from-Counts tag b (e ∷ es) gs =
    let rest = group_from-Counts tag b es (add_vote (vote tag e) e.name gs) in
    let (x, y, z) = add_vote-counts b (vote tag e) e.name gs in
    record {
      supported = omega (arith, rest.supported, x);
      single = λ h. rest.single (y h);
      bounded = omega (arith, rest.bounded, z);
    }

size-sort_names : (xs : List String) → size (sort_names xs) ≡ size xs
unfolding sort_names insert_name
size-sort_names [] = refl
size-sort_names (x ∷ xs) = omega (arith, inserted (sort_names xs), size-sort_names xs)
  where
    inserted : (ys : List String) → size (insert_name x ys) ≡ size ys + 1
    inserted [] = refl
    inserted (y ∷ ys) = ground (arith, inserted ys)

module _ (b : Header) (precedes : Header → Header → Bool) where
  held-insert_group :
      (g : Group) (gs : List Group) → held b (insert_group precedes g gs) ≡ held b (g ∷ gs)
  unfolding insert_group
  held-insert_group g [] = refl
  held-insert_group g (h ∷ hs) = ground (arith, held-insert_group g hs)

  copies-insert_group :
      (g : Group) (gs : List Group) → copies b (insert_group precedes g gs) ≡ copies b (g ∷ gs)
  unfolding insert_group
  copies-insert_group g [] = refl
  copies-insert_group g (h ∷ hs) = ground (arith, copies-insert_group g hs)

  total-insert_group :
      (g : Group) (gs : List Group) → total (insert_group precedes g gs) ≡ total (g ∷ gs)
  unfolding insert_group
  total-insert_group g [] = refl
  total-insert_group g (h ∷ hs) = ground (arith, total-insert_group g hs)

  -- The order of the names and of the groups changes no count.
  pub arrange-counts :
      (gs : List Group)
      → (held b (arrange precedes gs) ≡ held b gs)
        × (copies b (arrange precedes gs) ≡ copies b gs)
        × (total (arrange precedes gs) ≡ total gs)
  unfolding arrange
  arrange-counts [] = (refl, refl, refl)
  arrange-counts (g ∷ gs) =
      let sorted : Group = record g { providers = sort_names g.providers } in
      let (x, y, z) = arrange-counts gs in
      (
        ground
            (arith, held-insert_group sorted (arrange precedes gs), size-sort_names g.providers, x),
        ground (arith, copies-insert_group sorted (arrange precedes gs), y),
        omega (
          arith,
          total-insert_group sorted (arrange precedes gs),
          size-sort_names g.providers,
          z,
        ),
      )
