-- ===== src/Observer/Synced.antt =====
-- A synchronisation of tools/client/observer.ts, and a series of them, whatever the provider answers.
use challenge_escrow_protoco.Prelude.{
  ℕ, zero, suc, ◌+◌, ◌-◌, ◌≤◌, ◌<◌, ◌≡◌, String, refl, sym, subst, Option, arith,
}
use challenge_escrow_protoco.Observer.Types.{Header, Provider, Setup, Observer, SyncResult}
use challenge_escrow_protoco.Observer.Exec.{
  Result, ok, failed, Holds, Ensures, Ensures-bind, Ensures-done, Ensures-unless, Ensures-any,
}
use challenge_escrow_protoco.Observer.Logs.{logs_before}
use challenge_escrow_protoco.Observer.Sync.{
  first_block, rebuild, sync_once, after_sync, fresh, sync_times,
}
use challenge_escrow_protoco.Observer.Reads.{IsAncestor, load_headers-IsRun}
use challenge_escrow_protoco.Observer.Anchors.{merge_logs-IsGathered}
use challenge_escrow_protoco.Observer.Retained.{first_block-Retains}
use challenge_escrow_protoco.Observer.Sound.{
  IsSoundAt, IsSound, Synced, IsSoundAt-IsConsistent, read_head-late, find_ancestor-IsAncestor,
}
use challenge_escrow_protoco.Observer.Loaded.{loaded, loaded-IsGathered, pruned-IsTracking}
use challenge_escrow_protoco.Observer.Setup.{Options, configure, configure-window}

rebuild-Synced :
    (provider : Provider) (setup : Setup) (o : Observer) (latest : Header)
    (ancestor : Option Header)
    → 0 < setup.limits.max_retained_headers
    → IsSound setup o
    → setup.deployment_block ≤ latest.number
    → IsAncestor o.headers latest ancestor
    → Ensures (Synced setup) (rebuild provider setup o latest ancestor)
unfolding rebuild
rebuild-Synced provider setup o latest ancestor window sound late place =
    let keeps =
      first_block-Retains setup latest o ancestor (IsSoundAt-IsConsistent setup o o.head sound) late
        place in
    Ensures-unless _ _ _ (λ shallow.
      Ensures-bind _ _
        (load_headers-IsRun provider (latest.number + 1 - first_block setup ancestor)
          (first_block setup ancestor) ancestor)
        (λ new run. Ensures-unless _ _ _ (λ ends. Ensures-bind _ _ (Ensures-any _) (λ fetched u.
          Ensures-unless _ _ _ (λ few.
            Ensures-bind _ _
              (merge_logs-IsGathered setup setup.deployment_block (first_block setup ancestor)
                latest.number (loaded setup o ancestor new) keeps.start fetched
                (record { logs = logs_before (first_block setup ancestor) o.logs; added = 0 })
                (loaded-IsGathered setup latest o ancestor late place keeps new run))
              (λ m g. Ensures-unless _ _ _ (λ small. Ensures-bind _ _ (Ensures-any _) (λ final v.
                Ensures-unless _ _ _ (λ same. Ensures-done _ (
                  latest,
                  refl,
                  (pruned-IsTracking setup latest o ancestor late place keeps new run m window ends
                      g (ground arith)),
                  refl,
                  refl,
                ))))))))))

-- One synchronisation of an observer in a sound state, with a positive number of retained headers,
-- against any provider: if it returns, it returns the number and the hash of the new head, and the
-- observer tracks that head.
pub sync_once-Synced :
    (provider : Provider) (setup : Setup) (o : Observer)
    → 0 < setup.limits.max_retained_headers
    → IsSound setup o
    → Ensures (Synced setup) (sync_once provider setup o)
unfolding sync_once
sync_once-Synced provider setup o window sound =
    Ensures-bind _ _ (read_head-late provider setup o.head) (λ latest late.
      Ensures-bind _ _ (find_ancestor-IsAncestor provider setup o.headers latest o.head)
        (λ ancestor place. rebuild-Synced provider setup o latest ancestor window sound late place))

after_sync-IsSound :
    (setup : Setup) (o : Observer) (r : Result (SyncResult × Observer))
    → IsSound setup o
    → Holds (Synced setup) r
    → IsSound setup (after_sync o r)
after_sync-IsSound setup o (failed e) sound h = sound
after_sync-IsSound setup o (ok (r, o')) sound (head, e, tracking, to, hash) =
    subst (IsSoundAt setup o') (sym e) tracking

sync_times-IsSound :
    (provider : Provider) (setup : Setup) (n : ℕ) (o : Observer) (s : ℕ)
    → 0 < setup.limits.max_retained_headers
    → IsSound setup o
    → IsSound setup (sync_times provider setup n o s)
unfolding sync_times
sync_times-IsSound provider setup zero o s window sound = sound
sync_times-IsSound provider setup (suc n) o s window sound =
    let (r, s') = sync_once provider setup o s in
    sync_times-IsSound provider setup n (after_sync o r) s' window
      (after_sync-IsSound setup o r sound ((sync_once-Synced provider setup o window sound).at s))

-- An observer that the constructor accepts, after any number of synchronisations with any provider,
-- failed ones among them: without a head it holds nothing; with a head, the head is stored, the
-- stored headers are parts of one chain from the deployment block to the head and no older than the
-- limit, and the logs are distinct, within the limit, in blocks from the deployment to the head, and
-- with the hash of the header of their block where it is stored.
pub observer-IsSound :
    (provider : Provider) (address : String) (deployment_block : ℕ) (options : Options)
    (setup : Setup) (n s : ℕ)
    → configure address deployment_block options ≡ ok setup
    → IsSound setup (sync_times provider setup n fresh s)
observer-IsSound provider address deployment_block options setup n s e =
    sync_times-IsSound provider setup n fresh s
      (configure-window address deployment_block options setup e).0 (refl, refl)
