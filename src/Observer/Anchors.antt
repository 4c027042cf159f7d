-- ===== src/Observer/Anchors.antt =====
-- The retained logs of tools/client/observer.ts stand in blocks of the retained headers, each once.
use challenge_escrow_protoco.Prelude.{
  ℕ, ◌≤◌, ◌<◌, ◌∙◌, ◌≡◌, inl, inr, refl, true, false, Option, none, some, List, [], ◌∷◌, arith, ltb,
  Bool-cases, str_eq, str_eq_comm,
}
use challenge_escrow_protoco.Observer.Types.{Header, Log, RawLog, Setup}
use challenge_escrow_protoco.Observer.Exec.{Ensures, Ensures-bind, Ensures-done, Ensures-unless}
use challenge_escrow_protoco.Observer.Headers.{find_header}
use challenge_escrow_protoco.Observer.Logs.{
  is_anchor, is_marked, same_key, find_log, append_log, logs_before, Merged, normalize_log,
  merge_found, merge_log, merge_logs,
}

-- A log lies in a range of blocks, with the hash of the header of its block where that is retained.
pub record IsAnchored (low high : ℕ) (hs : List Header) (log : Log) : Type 0 where
  pub low_end : low ≤ log.block_number
  pub high_end : log.block_number ≤ high
  pub anchor :
      (h : Header) → find_header log.block_number hs ≡ some h → str_eq h.hash log.block_hash ≡ true

-- Every log satisfies `P`.
abbrev pub AllLogs {ℓ} : (Log → Type ℓ) → List Log → Type ℓ
AllLogs P [] = Unit
AllLogs P (l ∷ ls) = P l × AllLogs P ls

-- No two logs have the same key.
abbrev pub AreDistinct : List Log → Type 0
AreDistinct [] = Unit
AreDistinct (l ∷ ls) = (find_log l ls ≡ none) × AreDistinct ls

pub AllLogs-map {ℓ κ} :
    (P : Log → Type ℓ) (Q : Log → Type κ) (ls : List Log)
    → ((l : Log) → P l → Q l)
    → AllLogs P ls
    → AllLogs Q ls
AllLogs-map P Q [] f h = tt
AllLogs-map P Q (l ∷ ls) f h = (f l h.0, AllLogs-map P Q ls f h.1)

append_log-AllLogs {ℓ} :
    (P : Log → Type ℓ) (x : Log) (ls : List Log) → P x → AllLogs P ls → AllLogs P (append_log x ls)
unfolding append_log
append_log-AllLogs P x [] p h = (p, tt)
append_log-AllLogs P x (l ∷ ls) p h = (h.0, append_log-AllLogs P x ls p h.1)

pub find_log-append_log :
    (l x : Log) (ls : List Log)
    → find_log l ls ≡ none
    → same_key x l ≡ false
    → find_log l (append_log x ls) ≡ none
unfolding find_log append_log
find_log-append_log l x [] e f = ground arith
find_log-append_log l x (k ∷ ls) e f = ground (arith, find_log-append_log l x ls)

same_key_comm : (a b : Log) → same_key a b ≡ same_key b a
same_key_comm a b = ground (arith, str_eq_comm a.block_hash b.block_hash)

append_log-AreDistinct :
    (x : Log) (ls : List Log)
    → find_log x ls ≡ none
    → AreDistinct ls
    → AreDistinct (append_log x ls)
unfolding find_log append_log
append_log-AreDistinct x [] e h = (refl, tt)
append_log-AreDistinct x (l ∷ ls) e h =
    let apart : (same_key l x ≡ false) × (find_log x ls ≡ none) = ground arith in
    (
      find_log-append_log l x ls h.0 (same_key_comm x l ∙ apart.0),
      append_log-AreDistinct x ls apart.1 h.1,
    )

pub logs_before-AllLogs {ℓ} :
    (P : Log → Type ℓ) (from_block : ℕ) (ls : List Log)
    → AllLogs P ls
    → AllLogs (λ l. P l × (l.block_number < from_block)) (logs_before from_block ls)
unfolding logs_before
logs_before-AllLogs P from_block [] h = tt
logs_before-AllLogs P from_block (l ∷ ls) h = elim (Bool-cases (ltb l.block_number from_block)) [
  | inl before ↦ rw before ((h.0, ground arith), logs_before-AllLogs P from_block ls h.1)
  | inr after ↦ rw after (logs_before-AllLogs P from_block ls h.1)
]

find_log-logs_before :
    (x : Log) (from_block : ℕ) (ls : List Log)
    → find_log x ls ≡ none
    → find_log x (logs_before from_block ls) ≡ none
unfolding find_log logs_before
find_log-logs_before x from_block [] e = refl
find_log-logs_before x from_block (l ∷ ls) e = ground (arith, find_log-logs_before x from_block ls)

pub logs_before-AreDistinct :
    (from_block : ℕ) (ls : List Log) → AreDistinct ls → AreDistinct (logs_before from_block ls)
unfolding logs_before
logs_before-AreDistinct from_block [] h = tt
logs_before-AreDistinct from_block (l ∷ ls) h = elim (Bool-cases (ltb l.block_number from_block)) [
  | inl before ↦
      rw before
        (find_log-logs_before l from_block ls h.0, logs_before-AreDistinct from_block ls h.1)
  | inr after ↦ rw after (logs_before-AreDistinct from_block ls h.1)
]

-- The logs of a merge are anchored and distinct.
pub record IsGathered (low high : ℕ) (hs : List Header) (m : Merged) : Type 0 where
  pub anchored : AllLogs (IsAnchored low high hs) m.logs
  pub distinct : AreDistinct m.logs

normalize_log-within :
    (setup : Setup) (from_block to_block : ℕ) (raw : RawLog)
    → Ensures
        (λ log. (from_block ≤ log.block_number) × (log.block_number ≤ to_block))
        (normalize_log setup from_block to_block raw)
unfolding normalize_log
normalize_log-within setup from_block to_block raw = Ensures-unless _ _ _ (λ a.
    Ensures-unless _ _ _
      (λ b. Ensures-unless _ _ _ (λ c. Ensures-unless _ _ _ (λ d. Ensures-done _ (ground arith)))))

module _ (setup : Setup) (low from_block to_block : ℕ) (hs : List Header)
    (start : low ≤ from_block) where
  merge_found-IsGathered :
      (log : Log) (m : Merged)
      → IsAnchored low to_block hs log
      → IsGathered low to_block hs m
      → (found : Option Log) → find_log log m.logs ≡ found
      → Ensures (IsGathered low to_block hs) (merge_found found log m)
  unfolding merge_found
  merge_found-IsGathered log m a g none e = Ensures-done _ (record {
    anchored = append_log-AllLogs (IsAnchored low to_block hs) log m.logs a g.anchored;
    distinct = append_log-AreDistinct log m.logs e g.distinct;
  })
  merge_found-IsGathered log m a g (some x) e = Ensures-unless _ _ _ (λ same. Ensures-done _ g)

  is_anchor-IsAnchored :
      (log : Log)
      → (from_block ≤ log.block_number) × (log.block_number ≤ to_block)
      → is_anchor (find_header log.block_number hs) log ≡ true
      → IsAnchored low to_block hs log
  is_anchor-IsAnchored log (a, b) e = record {
    low_end = omega arith;
    high_end = b;
    anchor = λ h found. rw found at e;
  }

  merge_log-IsGathered :
      (raw : RawLog) (m : Merged)
      → IsGathered low to_block hs m
      → Ensures (IsGathered low to_block hs) (merge_log setup from_block to_block hs raw m)
  unfolding merge_log
  merge_log-IsGathered raw m g = elim (Bool-cases (is_marked raw.removed)) [
    | inl gone ↦ rw gone (Ensures-done _ g)
    | inr here ↦ rw here (
        Ensures-bind _ _ (normalize_log-within setup from_block to_block raw) (λ log inside.
          Ensures-unless _ _ _ (λ anchor.
            merge_found-IsGathered log m (is_anchor-IsAnchored log inside (ground arith)) g
              (find_log log m.logs) refl)))
  ]

  pub merge_logs-IsGathered :
      (fetched : List RawLog) (m : Merged)
      → IsGathered low to_block hs m
      → Ensures (IsGathered low to_block hs) (merge_logs setup from_block to_block hs fetched m)
  unfolding merge_logs
  merge_logs-IsGathered [] m g = Ensures-done _ g
  merge_logs-IsGathered (raw ∷ rest) m g =
      Ensures-bind _ _ (merge_log-IsGathered raw m g) (λ m' g'. merge_logs-IsGathered rest m' g')
