-- ===== src/Observer/Steady.antt =====
-- A new observer of tools/client/observer.ts against a provider that serves one chain.
use challenge_escrow_protoco.Prelude.{
  ℕ, zero, suc, ◌+◌, ◌≤◌, ◌<◌, ◌==◌, ◌≡◌, inl, inr, refl, sym, ap, subst, ◌∙◌, true, false, not,
  Option, some, List, [], ◌∷◌, arith, eq_refl, eq_iff, Bool-cases,
}
use challenge_escrow_protoco.Observer.Types.{Header, answered, Provider}
use challenge_escrow_protoco.Observer.Hex.{is_hash, lower}
use challenge_escrow_protoco.Observer.Headers.{
  max_uint64, normalize_header, same_header, extends_header, find_header, set_header, set_headers,
  load_header, load_headers, breaks,
}
use challenge_escrow_protoco.Observer.Returning.{
  Returns, Returns-bind, Returns-done, Returns-unless, Returns-await,
}
use challenge_escrow_protoco.Observer.Sync.{ends_elsewhere}
use challenge_escrow_protoco.Observer.Store.{find_header-set_header}

-- One chain of well-formed headers.
pub record IsChain (chain : ℕ → Header) : Type 0 where
  pub number : (n : ℕ) → (chain n).number ≡ n
  pub hash : (n : ℕ) → is_hash (chain n).hash ≡ true
  pub parent : (n : ℕ) → is_hash (chain n).parent_hash ≡ true
  pub joined : (n : ℕ) → lower (chain (n + 1)).parent_hash ≡ lower (chain n).hash

-- A header as it is stored.
abbrev pub normal : Header → Header
normal h = record { number = h.number; hash = lower h.hash; parent_hash = lower h.parent_hash }

-- The headers of a chain from a number on, as they are stored.
abbrev pub stretch : (ℕ → Header) → ℕ → ℕ → List Header
stretch chain zero n = []
stretch chain (suc k) n = normal (chain n) ∷ stretch chain k (n + 1)

module _ (provider : Provider) (chain : ℕ → Header) (c : IsChain chain)
    (served : (s n : ℕ) → provider.block_by_number s n ≡ answered (some (chain n))) where
  pub load_header-Returns :
      (n : ℕ) → n ≤ max_uint64 → Returns (λ h. h ≡ normal (chain n)) (load_header provider n)
  unfolding load_header normalize_header
  load_header-Returns n small =
      Returns-bind _ _ (Returns-await _ (some (chain n)) (λ s. served s n)) (λ value same.
        subst (λ v. Returns (λ h. h ≡ normal (chain n)) (normalize_header v n)) (sym same)
          (Returns-unless _ _ _ (ground (arith, c.number n, c.hash n, c.parent n))
            (Returns-done _ refl)))

  joins : (n : ℕ) → breaks (some (normal (chain n))) (normal (chain (n + 1))) ≡ false
  unfolding extends_header
  joins n = ground (
    arith,
    c.number n,
    c.number (n + 1),
    c.joined n,
    eq_iff (lower (lower (chain (n + 1)).parent_hash)) (lower (lower (chain n).hash)),
    ap lower (c.joined n),
  )

  pub load_headers-Returns :
      (count n : ℕ) (previous : Option Header)
      → n + count ≤ max_uint64 + 1
      → breaks previous (normal (chain n)) ≡ false
      → Returns (λ hs. hs ≡ stretch chain count n) (load_headers provider count n previous)
  unfolding load_headers
  load_headers-Returns zero n previous small first = Returns-done _ refl
  load_headers-Returns (suc count) n previous small first =
      Returns-bind _ _ (load_header-Returns n (omega arith)) (λ h same.
        Returns-unless _ _ _ (rw same first) (
          Returns-bind _ _
            (load_headers-Returns count (n + 1) (some h) (omega arith) (rw same (joins n)))
            (λ rest e. Returns-done _ (cc (same, e)))))

  -- The last header of a stretch is the one that the stretch aims at.
  pub stretch-ends :
      (count n latest : ℕ)
      → n + count ≡ latest + 1
      → ends_elsewhere (stretch chain count n) (normal (chain latest)) ≡ false
  unfolding same_header
  stretch-ends zero n latest e = refl
  stretch-ends (suc zero) n latest e =
      let same : n ≡ latest = omega arith in
      subst (λ k. not (same_header (normal (chain n)) (normal (chain k))) ≡ false) same
        (ground (
          arith,
          eq_refl (lower (lower (chain n).hash)),
          eq_refl (lower (lower (chain n).parent_hash)),
        ))
  stretch-ends (suc (suc count)) n latest e = stretch-ends (suc count) (n + 1) latest (omega arith)

  find_header-stretch :
      (count n k : ℕ) (hs : List Header)
      → n < k
      → find_header n (set_headers (stretch chain count k) hs) ≡ find_header n hs
  unfolding set_headers
  find_header-stretch zero n k hs less = refl
  find_header-stretch (suc count) n k hs less =
      find_header-stretch count n (k + 1) (set_header (normal (chain k)) hs) (omega arith)
      ∙ ground (arith, find_header-set_header n (normal (chain k)) hs, c.number k)

  pub stretch_found :
      (count n k : ℕ) (hs : List Header)
      → k ≤ n
      → n < k + count
      → find_header n (set_headers (stretch chain count k) hs) ≡ some (normal (chain n))
  unfolding set_headers
  stretch_found zero n k hs low high = absurd (omega arith)
  stretch_found (suc count) n k hs low high = elim (Bool-cases (k == n)) [
    | inl same ↦
        let here : k ≡ n = ground arith in
        find_header-stretch count n (k + 1) (set_header (normal (chain k)) hs) (omega arith)
        ∙ subst (λ j. find_header n (set_header (normal (chain j)) hs) ≡ some (normal (chain n)))
            (sym here) (ground (arith, find_header-set_header n (normal (chain n)) hs, c.number n))
    | inr other ↦
        stretch_found count n (k + 1) (set_header (normal (chain k)) hs) (ground arith)
          (omega arith)
  ]
