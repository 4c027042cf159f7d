-- ===== src/Observer/Chain.antt =====
-- The retained headers of tools/client/observer.ts are parts of one chain.
use challenge_escrow_protoco.Prelude.{
  ℕ, ◌+◌, ◌≤◌, ◌<◌, ◌≡◌, refl, sym, ◌∙◌, ap, subst, inl, inr, Bool, true, false, Option, some, List,
  [], ◌∷◌, arith,
}
use challenge_escrow_protoco.Observer.Types.{Header}
use challenge_escrow_protoco.Observer.Headers.{
  extends_header, find_header, set_header, set_headers, keep_headers, breaks, is_known, same_header,
}
use challenge_escrow_protoco.Observer.Logs.{size}
use challenge_escrow_protoco.Observer.Sync.{ends_elsewhere}
use challenge_escrow_protoco.Observer.Store.{
  find_header-number, find_header-set_header, find_header-keep_headers, set_header-cases,
}

-- A header is the child of the one with the number before, where both are stored.
pub record Linked (hs : List Header) : Type 0 where
  pub at :
      (c p : Header)
      → find_header c.number hs ≡ some c
      → find_header p.number hs ≡ some p
      → c.number ≡ p.number + 1
      → extends_header c p ≡ true

-- The stored numbers are from `low` on and below `high`.
pub record Within (low high : ℕ) (hs : List Header) : Type 0 where
  pub at : (n : ℕ) (h : Header) → find_header n hs ≡ some h → (low ≤ n) × (n < high)

-- A header that does not break with `previous` extends what is stored at the number before `high`.
pub record Meets (previous : Option Header) (high : ℕ) (hs : List Header) : Type 0 where
  pub at :
      (h p : Header)
      → find_header p.number hs ≡ some p
      → high ≡ p.number + 1
      → breaks previous h ≡ false
      → extends_header h p ≡ true

-- The headers from a number on, each the child of the one before.
abbrev pub IsRun : Option Header → ℕ → List Header → Type 0
IsRun previous number [] = Unit
IsRun previous number (h ∷ hs) =
    (h.number ≡ number) × (breaks previous h ≡ false) × IsRun (some h) (number + 1) hs

module _ (low high : ℕ) (hs : List Header) (p : ℕ → Bool) where
  pub keep_headers-Linked : Linked hs → Linked (keep_headers p hs)
  keep_headers-Linked l = record {
    at = λ c q e f s.
        l.at c q (ground (arith, find_header-keep_headers p c.number hs, e))
          (ground (arith, find_header-keep_headers p q.number hs, f)) s;
  }

  pub keep_headers-Within :
      (high' : ℕ)
      → Within low high hs
      → ((n : ℕ) → p n ≡ true → n < high → n < high')
      → Within low high' (keep_headers p hs)
  keep_headers-Within high' w sooner = record {
    at = λ n h e.
        let kept : (p n ≡ true) × (find_header n hs ≡ some h) =
          ground (arith, find_header-keep_headers p n hs, e) in
        let (b, t) = w.at n h kept.1 in (b, sooner n kept.0 t);
  }

module _ (low high : ℕ) (hs : List Header) (previous : Option Header) (h : Header) where
  pub set_header-Linked :
      Linked hs
      → Within low high hs
      → Meets previous high hs
      → h.number ≡ high
      → breaks previous h ≡ false
      → Linked (set_header h hs)
  set_header-Linked l w m here joins = record {
    at = λ c q e f s. elim (set_header-cases c.number h c hs e) [
      | inl new ↦ elim (set_header-cases q.number h q hs f) [
        | inl same ↦ ground (arith, new, same)
        | inr old ↦
            subst (λ (x : Header). extends_header x q ≡ true) (sym new)
              (m.at h q old (omega (arith, ap (λ (x : Header). x.number) new)) joins)
      ]
      | inr stored ↦ elim (set_header-cases q.number h q hs f) [
        | inl same ↦
            let (a, b) = w.at c.number c stored in
            absurd (omega (arith, ap (λ (x : Header). x.number) same))
        | inr old ↦ l.at c q stored old s
      ]
    ];
  }

  pub set_header-Within :
      low ≤ high → Within low high hs → h.number ≡ high → Within low (high + 1) (set_header h hs)
  set_header-Within start w here = record {
    at = λ n x e.
        let number : x.number ≡ n = find_header-number n (set_header h hs) x e in
        elim (set_header-cases n h x hs e) [
          | inl new ↦ ground (arith, ap (λ (y : Header). y.number) new)
          | inr old ↦ let (a, b) = w.at n x old in ground arith
        ];
  }

  pub set_header-Meets :
      Within low high hs → h.number ≡ high → Meets (some h) (high + 1) (set_header h hs)
  set_header-Meets w here = record {
    at = λ x q e s joined. elim (set_header-cases q.number h q hs e) [
      | inl same ↦ subst (λ (y : Header). extends_header x y ≡ true) (sym same) (ground arith)
      | inr old ↦ let (a, b) = w.at q.number q old in absurd (omega arith)
    ];
  }

-- A run that starts where the stored headers end keeps them in one chain.
pub set_headers-Linked :
    (low high : ℕ) (new hs : List Header) (previous : Option Header)
    → low ≤ high
    → Linked hs
    → Within low high hs
    → Meets previous high hs
    → IsRun previous high new
    → Linked (set_headers new hs) × Within low (high + size new) (set_headers new hs)
unfolding set_headers
set_headers-Linked low high [] hs previous start l w m run =
    (l, subst (λ k. Within low k hs) (omega arith) w)
set_headers-Linked low high (h ∷ new) hs previous start l w m run =
    let (linked, within) =
      set_headers-Linked low (high + 1) new (set_header h hs) (some h) (omega arith)
        (set_header-Linked low high hs previous h l w m run.0 run.1)
        (set_header-Within low high hs previous h start w run.0)
        (set_header-Meets low high hs previous h w run.0) run.2 in
    (linked, subst (λ k. Within low k (set_headers new (set_header h hs))) (omega arith) within)

-- Headers of other numbers do not move.
pub find_header-set_headers :
    (n high : ℕ) (new hs : List Header) (previous : Option Header)
    → n < high
    → IsRun previous high new
    → find_header n (set_headers new hs) ≡ find_header n hs
unfolding set_headers
find_header-set_headers n high [] hs previous less run = refl
find_header-set_headers n high (h ∷ new) hs previous less run =
    find_header-set_headers n (high + 1) new (set_header h hs) (some h) (omega arith) run.2
    ∙ ground (arith, find_header-set_header n h hs, run.0)

-- The last of the new headers is stored.
pub is_known-set_headers :
    (h : Header) (new hs : List Header) (latest : Header)
    → ends_elsewhere (h ∷ new) latest ≡ false
    → is_known (find_header latest.number (set_headers (h ∷ new) hs)) latest ≡ true
unfolding set_headers same_header
is_known-set_headers h [] hs latest e =
    rw (find_header-set_header latest.number h hs) (ground arith)
is_known-set_headers h (g ∷ new) hs latest e = is_known-set_headers g new (set_header h hs) latest e
