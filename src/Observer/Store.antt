-- ===== src/Observer/Store.antt =====
-- The map of headers of tools/client/observer.ts: reads after writes and deletions.
use challenge_escrow_protoco.Prelude.{
  ℕ, ◌==◌, ◌≡◌, ◌⊎◌, inl, inr, Bool-cases, refl, Bool, none, some, List, [], ◌∷◌, arith,
  if◌then◌else◌,
}
use challenge_escrow_protoco.Observer.Types.{Header}
use challenge_escrow_protoco.Observer.Headers.{find_header, set_header, keep_headers}

pub find_header-number :
    (n : ℕ) (hs : List Header) (h : Header) → find_header n hs ≡ some h → h.number ≡ n
unfolding find_header
find_header-number n [] h e = cc
find_header-number n (g ∷ hs) h e = ground (arith, find_header-number n hs h)

pub find_header-set_header :
    (n : ℕ) (h : Header) (hs : List Header)
    → find_header n (set_header h hs) ≡ (if h.number == n then some h else find_header n hs)
unfolding find_header set_header
find_header-set_header n h [] = refl
find_header-set_header n h (g ∷ hs) = ground (arith, find_header-set_header n h hs)

pub find_header-keep_headers :
    (p : ℕ → Bool) (n : ℕ) (hs : List Header)
    → find_header n (keep_headers p hs) ≡ (if p n then find_header n hs else none)
unfolding find_header keep_headers
find_header-keep_headers p n [] = ground arith
find_header-keep_headers p n (h ∷ hs) = ground (arith, find_header-keep_headers p n hs)

-- What is read after a write is what was written, or what was there.
pub set_header-cases :
    (n : ℕ) (h x : Header) (hs : List Header)
    → find_header n (set_header h hs) ≡ some x
    → (x ≡ h) ⊎ (find_header n hs ≡ some x)
set_header-cases n h x hs e = elim (Bool-cases (h.number == n)) [
  | inl same ↦ inl (cc (rw (find_header-set_header n h hs, same) at e))
  | inr other ↦ inr (rw (find_header-set_header n h hs, other) at e)
]
