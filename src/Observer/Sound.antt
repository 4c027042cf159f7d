-- ===== src/Observer/Sound.antt =====
-- The observer of tools/client/observer.ts after synchronisations, whatever the provider answers.
use challenge_escrow_protoco.Prelude.{
  ℕ, ◌+◌, ◌≤◌, ◌≡◌, sym, subst, true, Option, none, some, List, [], arith,
}
use challenge_escrow_protoco.Observer.Types.{Header, Provider, Setup, Observer, SyncResult}
use challenge_escrow_protoco.Observer.Exec.{
  Ensures, Ensures-bind, Ensures-done, Ensures-unless, Ensures-any, Ensures-then, weaken,
}
use challenge_escrow_protoco.Observer.Headers.{find_header, is_known, load_header}
use challenge_escrow_protoco.Observer.Logs.{size}
use challenge_escrow_protoco.Observer.Sync.{read_head, find_ancestor}
use challenge_escrow_protoco.Observer.Chain.{Linked, Within}
use challenge_escrow_protoco.Observer.Reads.{
  IsAncestor, load_header-number, find_ancestor_from-IsAncestor,
}
use challenge_escrow_protoco.Observer.Anchors.{IsAnchored, AllLogs, AreDistinct, AllLogs-map}
use challenge_escrow_protoco.Observer.Retained.{IsConsistent}

-- The observer at a head: the head is stored, the stored headers are parts of one chain that ends
-- there, no more of them than the limit, and every log stands in a stored block or an older one, once.
pub record IsTracking (setup : Setup) (o : Observer) (head : Header) : Type 0 where
  pub known : is_known (find_header head.number o.headers) head ≡ true
  pub linked : Linked o.headers
  pub within : Within setup.deployment_block (head.number + 1) o.headers
  pub recent :
      (n : ℕ) (h : Header)
      → find_header n o.headers ≡ some h
      → head.number + 1 ≤ n + setup.limits.max_retained_headers
  pub anchored : AllLogs (IsAnchored setup.deployment_block head.number o.headers) o.logs
  pub distinct : AreDistinct o.logs
  pub bounded : size o.logs ≤ setup.limits.max_retained_logs

abbrev pub IsSoundAt : Setup → Observer → Option Header → Type 0
IsSoundAt setup o none = (o.headers ≡ []) × (o.logs ≡ [])
IsSoundAt setup o (some head) = IsTracking setup o head

abbrev pub IsSound : Setup → Observer → Type 0
IsSound setup o = IsSoundAt setup o o.head

-- What a synchronisation returns is about the new head.
abbrev pub Synced : Setup → SyncResult × Observer → Type 0
Synced setup (r, o) =
    (head : Header) × (o.head ≡ some head)
    × IsTracking setup o head
    × (r.to_block ≡ head.number)
    × (r.head_hash ≡ head.hash)

pub IsSoundAt-IsConsistent :
    (setup : Setup) (o : Observer) (head : Option Header)
    → IsSoundAt setup o head
    → IsConsistent setup.deployment_block o
unfolding find_header
IsSoundAt-IsConsistent setup o none (e, f) = record {
  high = 0;
  linked = record { at = λ c p a b s. ground arith };
  within = record { at = λ n h a. ground arith };
  anchored = subst (AllLogs (IsAnchored setup.deployment_block 0 o.headers)) (sym f) tt;
  distinct = subst AreDistinct (sym f) tt;
}
IsSoundAt-IsConsistent setup o (some head) t = record {
  high = head.number + 1;
  linked = t.linked;
  within = t.within;
  anchored =
      AllLogs-map _ _ o.logs
        (λ l a. record {
          low_end = a.low_end;
          high_end = omega (arith, a.high_end);
          anchor = a.anchor;
        })
        t.anchored;
  distinct = t.distinct;
}

pub read_head-late :
    (provider : Provider) (setup : Setup) (previous : Option Header)
    → Ensures (λ latest. setup.deployment_block ≤ latest.number) (read_head provider setup previous)
unfolding read_head
read_head-late provider setup previous = Ensures-bind _ _ (Ensures-any _) (λ n u.
    Ensures-unless _ _ _ (λ late.
      Ensures-then _ _
        (weaken (load_header provider n) (load_header-number provider n) (λ h e. ground arith))))

pub find_ancestor-IsAncestor :
    (provider : Provider) (setup : Setup) (headers : List Header) (latest : Header)
    (previous : Option Header)
    → Ensures (IsAncestor headers latest) (find_ancestor provider setup headers latest previous)
unfolding find_ancestor
find_ancestor-IsAncestor provider setup headers latest none = Ensures-done _ tt
find_ancestor-IsAncestor provider setup headers latest (some previous) =
    find_ancestor_from-IsAncestor provider setup.deployment_block
      (setup.limits.max_block_span + setup.limits.max_reorg_depth) headers latest
