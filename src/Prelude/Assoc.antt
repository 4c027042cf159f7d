-- ===== src/Prelude/Assoc.antt =====
-- A JavaScript `Map` or object with text keys, in insertion order.
use Prim.Native.Nat.{ℕ, ◌+◌, ◌≤◌}
use Prim.Native.String.{String}
use mathlib.Core.Path.{◌≡◌, refl, sym, subst, subst₂}
use mathlib.Core.Logic.{inl, inr}
use mathlib.Core.Bool.{Bool, true, false}
use mathlib.Core.Option.{Option, none, some}
use mathlib.Core.List.{List, [], ◌∷◌}
use native.Mathlib.Omega.{arith}
use text.Mathlib.Text.{◌==◌ as str_eq}
use text.Mathlib.TextEquality.{eq_iff}
use text.Mathlib.TextPositions.{eq_refl}
use challenge_escrow_protoco.Prelude.Tests.{if◌then◌else◌, Bool-cases}

abbrev pub Dict {ℓ} : Type ℓ → Type ℓ
Dict V = List (String × V)

some_eq {ℓ} : {A : Type ℓ} {a b : A} → some a ≡ some b → a ≡ b
some_eq e = cc

module _ {ℓ} {V : Type ℓ} where
  -- `map.get(k)`
  abbrev pub lookup : String → Dict V → Option V
  lookup k [] = none
  lookup k ((j, v) ∷ m) = if str_eq j k then some v else lookup k m

  -- `map.has(k)`
  abbrev pub contains : String → Dict V → Bool
  contains k m = elim (lookup k m) [ none ↦ false | some _ ↦ true ]

  -- `map.set(k, v)`: a known key keeps its place.
  abbrev pub insert : String → V → Dict V → Dict V
  insert k v [] = (k, v) ∷ []
  insert k v ((j, w) ∷ m) = if str_eq j k then (j, v) ∷ m else (j, w) ∷ insert k v m

  pub lookup-insert :
      (k j : String) (v : V) (m : Dict V)
      → lookup j (insert k v m) ≡ (if str_eq k j then some v else lookup j m)
  lookup-insert k j v [] = refl
  lookup-insert k j v ((i, w) ∷ m) =
      ground (arith, eq_iff k j, eq_iff i k, eq_iff i j, lookup-insert k j v m)

  -- A second write to a key replaces the first.
  pub insert-insert : (k : String) (v w : V) (m : Dict V) → insert k v (insert k w m) ≡ insert k v m
  insert-insert k v w [] = rw (eq_refl k)
  insert-insert k v w ((j, x) ∷ m) = ground (arith, insert-insert k v w m)

  -- Every entry satisfies `P`.
  abbrev pub AllEntries {κ} : (String → V → Type κ) → Dict V → Type κ
  AllEntries P [] = Unit
  AllEntries P ((k, v) ∷ m) = P k v × AllEntries P m

  pub AllEntries-lookup {κ} :
      (P : String → V → Type κ) (k : String) {v : V} (m : Dict V)
      → AllEntries P m
      → lookup k m ≡ some v
      → P k v
  AllEntries-lookup P k [] h e = cc
  AllEntries-lookup P k {v} ((j, w) ∷ m) h e = elim (Bool-cases (str_eq j k)) [
    | inl same ↦ subst₂ P ((eq_iff j k).0 same) (some_eq (rw same at e)) h.0
    | inr other ↦ AllEntries-lookup P k m h.1 (rw other at e)
  ]

  pub AllEntries-insert {κ} :
      (P : String → V → Type κ) (k : String) (v : V) (m : Dict V)
      → P k v
      → AllEntries P m
      → AllEntries P (insert k v m)
  AllEntries-insert P k v [] p h = (p, tt)
  AllEntries-insert P k v ((j, w) ∷ m) p h = elim (Bool-cases (str_eq j k)) [
    | inl same ↦ rw same (subst (λ i. P i v) (sym ((eq_iff j k).0 same)) p, h.1)
    | inr other ↦ rw other (h.0, AllEntries-insert P k v m p h.1)
  ]

  -- The sum of a measure over the values.
  abbrev pub total_of : (V → ℕ) → Dict V → ℕ
  total_of f [] = 0
  total_of f ((k, v) ∷ m) = f v + total_of f m

  pub total_of-insert :
      (f : V → ℕ) (k : String) (v : V) {old : V} (m : Dict V)
      → lookup k m ≡ some old
      → total_of f (insert k v m) + f old ≡ total_of f m + f v
  total_of-insert f k v [] e = cc
  total_of-insert f k v {old} ((j, w) ∷ m) e = ground (arith, total_of-insert f k v {old = old} m)

  pub total_of-insert_new :
      (f : V → ℕ) (k : String) (v : V) (m : Dict V)
      → lookup k m ≡ none
      → total_of f (insert k v m) ≡ total_of f m + f v
  total_of-insert_new f k v [] e = omega arith
  total_of-insert_new f k v ((j, w) ∷ m) e = ground (arith, total_of-insert_new f k v m)

  pub le-total_of :
      (f : V → ℕ) (k : String) {v : V} (m : Dict V) → lookup k m ≡ some v → f v ≤ total_of f m
  le-total_of f k [] e = cc
  le-total_of f k {v} ((j, w) ∷ m) e = ground (arith, le-total_of f k {v = v} m)
