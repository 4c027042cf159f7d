-- ===== src/Observer/Headers.antt =====
-- tools/client/observer.ts: headers, the search of the common ancestor and the loading of headers.
use challenge_escrow_protoco.Prelude.{
  ℕ, zero, suc, ◌+◌, ◌-◌, ◌^◌, ◌==◌, Bool, false, not, ◌&&◌, ◌||◌, Option, none, some, List, [],
  ◌∷◌, str_eq, ltb, if◌then◌else◌,
}
use challenge_escrow_protoco.Observer.Types.{Header, Provider, Failure}
use challenge_escrow_protoco.Observer.Hex.{is_hash, lower}
use challenge_escrow_protoco.Observer.Exec.{Exec, ◌>>=◌, ◌>>◌, done, fail, fail_if, await}

abbrev pub max_uint64 : ℕ
max_uint64 = 2 ^ 64 - 1

-- `normalizeHeader`, for the errors of one label
unfoldable pub normalize_header : Option Header → ℕ → Exec Header
normalize_header none expected = fail Failure.header_unavailable
normalize_header (some value) expected = do
  fail_if
      (not (value.number == expected)
        || ltb max_uint64 value.number
        || not (is_hash value.hash)
        || not (is_hash value.parent_hash))
      Failure.header_malformed
  done (record {
    number = value.number;
    hash = lower value.hash;
    parent_hash = lower value.parent_hash;
  })

-- `sameHeader`
unfoldable pub same_header : Header → Header → Bool
same_header a b =
    a.number == b.number
    && (str_eq (lower a.hash) (lower b.hash) && str_eq (lower a.parent_hash) (lower b.parent_hash))

-- `extendsHeader`
unfoldable pub extends_header : Header → Header → Bool
extends_header child parent =
    child.number == parent.number + 1 && str_eq (lower child.parent_hash) (lower parent.hash)

-- `headers.get(number)`
unfoldable pub find_header : ℕ → List Header → Option Header
find_header n [] = none
find_header n (h ∷ hs) = if h.number == n then some h else find_header n hs

-- `headers.set(header.number, header)`
unfoldable pub set_header : Header → List Header → List Header
set_header h [] = h ∷ []
set_header h (g ∷ hs) = if g.number == h.number then h ∷ hs else g ∷ set_header h hs

unfoldable pub set_headers : List Header → List Header → List Header
set_headers [] hs = hs
set_headers (h ∷ new) hs = set_headers new (set_header h hs)

-- The headers whose number passes a test.
unfoldable pub keep_headers : (ℕ → Bool) → List Header → List Header
keep_headers p [] = []
keep_headers p (h ∷ hs) = let rest = keep_headers p hs in if p h.number then h ∷ rest else rest

abbrev pub is_known : Option Header → Header → Bool
is_known none h = false
is_known (some known) h = same_header known h

-- `await provider.getBlockByNumber(number)`, normalized
unfoldable pub load_header : Provider → ℕ → Exec Header
load_header provider number = do
  value ← await (λ s. provider.block_by_number s number)
  normalize_header value number

-- The tests of one turn of `#findCommonAncestor`, and what follows them.
-- `candidate.number >= deploymentBlock - 1` is written without the subtraction.
abbrev pub search : ℕ → List Header → Header → Exec (Option Header) → Exec (Option Header)
search deployment headers candidate further =
    if ltb (candidate.number + 1) deployment
    then done none
    else if is_known (find_header candidate.number headers) candidate
    then done (some candidate)
    else if candidate.number == 0
    then done none
    else further

module _ (provider : Provider) (deployment : ℕ) where
  -- The loop of `#findCommonAncestor`; the first number is what the traversal limit leaves.
  unfoldable pub find_ancestor_from : ℕ → List Header → Header → Exec (Option Header)
  find_ancestor_from zero headers candidate =
      search deployment headers candidate (fail Failure.traversal_limit)
  find_ancestor_from (suc left) headers candidate = search deployment headers candidate (do
    parent ← load_header provider (candidate.number - 1)
    fail_if (not (extends_header candidate parent)) Failure.broken_parent
    find_ancestor_from left headers parent)

-- The check of one header against the one before it.
abbrev pub breaks : Option Header → Header → Bool
breaks none h = false
breaks (some previous) h = not (extends_header h previous)

-- `#loadHeaders`, for a count of headers from a number on
unfoldable pub load_headers : Provider → ℕ → ℕ → Option Header → Exec (List Header)
load_headers provider zero number previous = done []
load_headers provider (suc count) number previous = do
  header ← load_header provider number
  fail_if (breaks previous header) Failure.broken_chain
  rest ← load_headers provider count (number + 1) (some header)
  done (header ∷ rest)
