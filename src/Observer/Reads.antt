-- ===== src/Observer/Reads.antt =====
-- What the reads of tools/client/observer.ts return: normalized headers, a known ancestor, a run.
use challenge_escrow_protoco.Prelude.{
  ℕ, zero, suc, ◌+◌, ◌-◌, ◌<◌, ◌==◌, ◌≡◌, ◌⊎◌, inl, inr, refl, ap, true, Option, none, some, List,
  arith, ltb, Bool-cases,
}
use challenge_escrow_protoco.Observer.Types.{Header, Provider}
use challenge_escrow_protoco.Observer.Exec.{
  Exec, Ensures, Ensures-bind, Ensures-unless, Ensures-done, Ensures-fail, Ensures-any, weaken,
}
use challenge_escrow_protoco.Observer.Headers.{
  normalize_header, load_header, load_headers, find_header, extends_header, is_known, search,
  find_ancestor_from,
}
use challenge_escrow_protoco.Observer.Logs.{size}
use challenge_escrow_protoco.Observer.Chain.{IsRun}

normalized :
    (value : Option Header) (n : ℕ) → Ensures (λ h. h.number ≡ n) (normalize_header value n)
unfolding normalize_header
normalized none n = Ensures-fail _
normalized (some h) n = Ensures-unless _ _ _ (λ e. Ensures-done _ (ground arith))

pub load_header-number :
    (provider : Provider) (n : ℕ) → Ensures (λ h. h.number ≡ n) (load_header provider n)
unfolding load_header
load_header-number provider n = Ensures-bind _ _ (Ensures-any _) (λ value u. normalized value n)

-- As many headers as were asked for, in a run.
abbrev pub Loads : Option Header → ℕ → ℕ → List Header → Type 0
Loads previous number count hs = (size hs ≡ count) × IsRun previous number hs

pub load_headers-IsRun :
    (provider : Provider) (count number : ℕ) (previous : Option Header)
    → Ensures (Loads previous number count) (load_headers provider count number previous)
unfolding load_headers
load_headers-IsRun provider zero number previous = Ensures-done _ (refl, tt)
load_headers-IsRun provider (suc count) number previous =
    Ensures-bind _ _ (load_header-number provider number) (λ h here. Ensures-unless _ _ _ (λ joins.
      Ensures-bind _ _ (load_headers-IsRun provider count (number + 1) (some h))
        (λ rest run. Ensures-done _ (omega (arith, run.0), (here, joins, run.1)))))

-- The ancestor is stored, and it is the candidate itself or lies below it.
abbrev pub IsAncestor : List Header → Header → Option Header → Type 0
IsAncestor headers candidate none = Unit
IsAncestor headers candidate (some a) =
    (is_known (find_header a.number headers) a ≡ true)
    × ((a ≡ candidate) ⊎ (a.number < candidate.number))

search-IsAncestor :
    (deployment : ℕ) (headers : List Header) (c : Header) (further : Exec (Option Header))
    → Ensures (IsAncestor headers c) further
    → Ensures (IsAncestor headers c) (search deployment headers c further)
search-IsAncestor deployment headers c further h =
    elim (Bool-cases (ltb (c.number + 1) deployment)) [
      | inl low ↦ rw low (Ensures-done _ tt)
      | inr e ↦ elim (Bool-cases (is_known (find_header c.number headers) c)) [
        | inl known ↦ rw (e, known) (Ensures-done _ (known, inl refl))
        | inr new ↦ elim (Bool-cases (c.number == 0)) [
          | inl first ↦ rw (e, new, first) (Ensures-done _ tt)
          | inr later ↦ rw (e, new, later) h
        ]
      ]
    ]

-- A lower ancestor of the parent is one of the candidate.
above :
    (headers : List Header) (c parent : Header) (r : Option Header)
    → extends_header c parent ≡ true
    → IsAncestor headers parent r
    → IsAncestor headers c r
unfolding extends_header
above headers c parent none e h = tt
above headers c parent (some a) e (known, inl same) =
    (known, inr (ground (arith, ap (λ (x : Header). x.number) same)))
above headers c parent (some a) e (known, inr less) = (known, inr (ground arith))

pub find_ancestor_from-IsAncestor :
    (provider : Provider) (deployment budget : ℕ) (headers : List Header) (c : Header)
    → Ensures (IsAncestor headers c) (find_ancestor_from provider deployment budget headers c)
unfolding find_ancestor_from
find_ancestor_from-IsAncestor provider deployment zero headers c =
    search-IsAncestor deployment headers c _ (Ensures-fail _)
find_ancestor_from-IsAncestor provider deployment (suc budget) headers c =
    search-IsAncestor deployment headers c _ (
      Ensures-bind _ _ (load_header-number provider (c.number - 1)) (λ parent here.
        Ensures-unless _ _ _ (λ joins.
          weaken (find_ancestor_from provider deployment budget headers parent)
            (find_ancestor_from-IsAncestor provider deployment budget headers parent)
            (λ r h. above headers c parent r (ground arith) h))))
