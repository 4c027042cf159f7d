-- ===== src/Observer/Served.antt =====
-- The merge of tools/client/observer.ts of the logs that a provider serves for one chain.
use challenge_escrow_protoco.Prelude.{
  ℕ, ◌+◌, ◌≤◌, ◌≡◌, refl, sym, subst, true, false, none, some, List, [], ◌∷◌, arith, eq_iff,
}
use challenge_escrow_protoco.Observer.Types.{
  Header, Log, Removed, absent, marked, kept, malformed, RawLog, Setup,
}
use challenge_escrow_protoco.Observer.Hex.{is_address, lower}
use challenge_escrow_protoco.Observer.Headers.{find_header}
use challenge_escrow_protoco.Observer.Logs.{
  size, copy_log, is_marked, is_malformed, is_well_formed, normalize_log, same_key, find_log,
  append_log, is_anchor, Merged, merge_found, merge_log, merge_logs,
}
use challenge_escrow_protoco.Observer.Anchors.{find_log-append_log}
use challenge_escrow_protoco.Observer.Returning.{
  Returns, Returns-bind, Returns-map, Returns-done, Returns-unless,
}
use challenge_escrow_protoco.Observer.Steady.{normal}

-- A log that the observer admits: of its contract, in the range, well-formed, and with the hash of
-- its block in the chain.
pub record IsServed (setup : Setup) (chain : ℕ → Header) (low high : ℕ) (raw : RawLog)
    : Type 0 where
  pub present : is_malformed raw.removed ≡ false
  pub address : is_address raw.log.address ≡ true
  pub contract : lower raw.log.address ≡ lower setup.address
  pub low_end : low ≤ raw.log.block_number
  pub high_end : raw.log.block_number ≤ high
  pub formed : is_well_formed setup.limits.max_log_data_bytes raw.log ≡ true
  pub block : lower raw.log.block_hash ≡ lower (chain raw.log.block_number).hash

-- Every served log satisfies `P`.
abbrev pub AllServed {ℓ} : (RawLog → Type ℓ) → List RawLog → Type ℓ
AllServed P [] = Unit
AllServed P (r ∷ rs) = P r × AllServed P rs

-- No two served logs have the same key.
abbrev pub AreApart : List RawLog → Type 0
AreApart [] = Unit
AreApart (r ∷ rs) =
    AllServed (λ q. same_key (copy_log r.log) (copy_log q.log) ≡ false) rs × AreApart rs

abbrev IsNew : List Log → RawLog → Type 0
IsNew logs raw = find_log (copy_log raw.log) logs ≡ none

marked_lem : (r : Removed) → is_malformed r ≡ false → is_marked r ≡ false
marked_lem absent e = refl
marked_lem kept e = refl
marked_lem marked e = cc
marked_lem malformed e = cc

size-append_log : (x : Log) (ls : List Log) → size (append_log x ls) ≡ size ls + 1
unfolding append_log
size-append_log x [] = refl
size-append_log x (l ∷ ls) = omega (arith, size-append_log x ls)

still-IsNew :
    (x : RawLog) (logs : List Log) (rs : List RawLog)
    → AllServed (IsNew logs) rs
    → AllServed (λ q. same_key (copy_log x.log) (copy_log q.log) ≡ false) rs
    → AllServed (IsNew (append_log (copy_log x.log) logs)) rs
still-IsNew x logs [] h k = tt
still-IsNew x logs (r ∷ rs) h k = (
  find_log-append_log (copy_log r.log) (copy_log x.log) logs h.0 k.0,
  still-IsNew x logs rs h.1 k.1,
)

module _ (setup : Setup) (chain : ℕ → Header) (low high : ℕ) (hs : List Header)
    (stored : (n : ℕ) → low ≤ n → n ≤ high → find_header n hs ≡ some (normal (chain n))) where
  normalize_log-Returns :
      (raw : RawLog)
      → IsServed setup chain low high raw
      → Returns (λ l. l ≡ copy_log raw.log) (normalize_log setup low high raw)
  unfolding normalize_log
  normalize_log-Returns raw h = Returns-unless _ _ _ h.present (
      Returns-unless _ _ _
        (ground
          (arith, h.address, eq_iff (lower raw.log.address) (lower setup.address), h.contract))
        (Returns-unless _ _ _ (ground (arith, h.low_end, h.high_end))
          (Returns-unless _ _ _ (ground (arith, h.formed)) (Returns-done _ refl))))

  anchored :
      (raw : RawLog)
      → IsServed setup chain low high raw
      → is_anchor (find_header raw.log.block_number hs) (copy_log raw.log) ≡ true
  anchored raw h = rw (stored raw.log.block_number h.low_end h.high_end) (
      (eq_iff (lower (chain raw.log.block_number).hash) (lower raw.log.block_hash)).1 (sym h.block))

  merge_log-Returns :
      (raw : RawLog) (m : Merged)
      → IsServed setup chain low high raw
      → IsNew m.logs raw
      → Returns
          (λ m'. m' ≡ record { logs = append_log (copy_log raw.log) m.logs; added = m.added + 1 })
          (merge_log setup low high hs raw m)
  unfolding merge_log merge_found
  merge_log-Returns raw m h new = rw (marked_lem raw.removed h.present) (
      Returns-bind _ _ (normalize_log-Returns raw h) (λ l same.
        rw same
          (Returns-unless _ _ _ (ground (arith, anchored raw h)) (rw new (Returns-done _ refl)))))

  pub merge_logs-Returns :
      (raws : List RawLog) (m : Merged)
      → AllServed (IsServed setup chain low high) raws
      → AllServed (IsNew m.logs) raws
      → AreApart raws
      → Returns
          (λ m'. (size m'.logs ≡ size m.logs + size raws) × (m'.added ≡ m.added + size raws))
          (merge_logs setup low high hs raws m)
  unfolding merge_logs
  merge_logs-Returns [] m h new apart = Returns-done _ (omega arith, omega arith)
  merge_logs-Returns (raw ∷ raws) m h new apart =
      let m2 : Merged = record {
        logs = append_log (copy_log raw.log) m.logs;
        added = m.added + 1;
      } in
      Returns-bind _ _ (merge_log-Returns raw m h.0 new.0) (λ m1 same.
        subst
          (λ x.
            Returns
              (λ m'.
                (size m'.logs ≡ size m.logs + size (raw ∷ raws))
                × (m'.added ≡ m.added + size (raw ∷ raws)))
              (merge_logs setup low high hs raws x))
          (sym same)
          (Returns-map (merge_logs setup low high hs raws m2)
            (merge_logs-Returns raws m2 h.1 (still-IsNew raw m.logs raws new.1 apart.0) apart.1)
            (λ m' (a, b).
              (omega (arith, size-append_log (copy_log raw.log) m.logs, a), omega (arith, b)))))
