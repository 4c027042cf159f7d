-- ===== src/Observer/Loaded.antt =====
-- The headers and logs that a synchronisation of tools/client/observer.ts stores at the end.
use challenge_escrow_protoco.Prelude.{
  ℕ, ◌+◌, ◌-◌, ◌≤◌, ◌<◌, ◌≡◌, refl, sym, ◌∙◌, ap, subst, true, false, Option, some, List, [], ◌∷◌,
  arith, leb,
}
use challenge_escrow_protoco.Observer.Types.{Header, Setup, Observer}
use challenge_escrow_protoco.Observer.Headers.{find_header, set_headers, keep_headers, is_known}
use challenge_escrow_protoco.Observer.Logs.{size, logs_before, Merged}
use challenge_escrow_protoco.Observer.Sync.{first_block, ends_elsewhere}
use challenge_escrow_protoco.Observer.Store.{find_header-keep_headers}
use challenge_escrow_protoco.Observer.Chain.{
  Linked, Within, keep_headers-Linked, keep_headers-Within, set_headers-Linked,
  find_header-set_headers, is_known-set_headers,
}
use challenge_escrow_protoco.Observer.Reads.{IsAncestor, Loads}
use challenge_escrow_protoco.Observer.Anchors.{AllLogs-map, IsGathered}
use challenge_escrow_protoco.Observer.Retained.{Retains, kept_headers, is_known-latest}
use challenge_escrow_protoco.Observer.Sound.{IsTracking}

-- The stored headers with the new ones, and without those that are too old.
abbrev pub loaded : Setup → Observer → Option Header → List Header → List Header
loaded setup o ancestor new = set_headers new (kept_headers (first_block setup ancestor) o)

abbrev pruned : Setup → ℕ → List Header → List Header
pruned setup latest hs =
    keep_headers (λ n. leb (latest + 1) (n + setup.limits.max_retained_headers)) hs

pruned_stored :
    (setup : Setup) (latest : ℕ) (hs : List Header) (n : ℕ) (h : Header)
    → find_header n (pruned setup latest hs) ≡ some h
    → (latest + 1 ≤ n + setup.limits.max_retained_headers) × (find_header n hs ≡ some h)
pruned_stored setup latest hs n h e = ground (
  arith,
  find_header-keep_headers (λ n. leb (latest + 1) (n + setup.limits.max_retained_headers)) n hs,
  e,
)

module _ (setup : Setup) (latest : Header) (o : Observer) (ancestor : Option Header)
    (late : setup.deployment_block ≤ latest.number) (place : IsAncestor o.headers latest ancestor)
    (keeps : Retains setup.deployment_block latest.number o ancestor (first_block setup ancestor))
    (new : List Header)
    (run : Loads ancestor
      (first_block setup ancestor)
      (latest.number + 1 - first_block setup ancestor)
      new) where
  loaded-Linked :
      Linked (loaded setup o ancestor new)
      × Within setup.deployment_block (latest.number + 1) (loaded setup o ancestor new)
  loaded-Linked =
      let (linked, within) =
        set_headers-Linked setup.deployment_block (first_block setup ancestor) new
          (kept_headers (first_block setup ancestor) o) ancestor keeps.start keeps.linked
          keeps.within keeps.meets run.1 in
      (
        linked,
        subst (λ k. Within setup.deployment_block k (loaded setup o ancestor new))
            (omega (arith, keeps.top, run.0)) within,
      )

  pub loaded-IsGathered :
      IsGathered setup.deployment_block latest.number
        (loaded setup o ancestor new)
        (record { logs = logs_before (first_block setup ancestor) o.logs; added = 0 })
  loaded-IsGathered = record {
    anchored =
        AllLogs-map _ _ (logs_before (first_block setup ancestor) o.logs)
          (λ l (a, b). record {
            low_end = a.low_end;
            high_end = a.high_end;
            anchor = λ h found. a.anchor h (
                sym (
                  find_header-set_headers l.block_number (first_block setup ancestor) new
                    (kept_headers (first_block setup ancestor) o) ancestor b run.1)
                ∙ found);
          })
          keeps.anchored;
    distinct = keeps.distinct;
  }

  loaded_known :
      (some_new : List Header)
      → some_new ≡ new
      → ends_elsewhere some_new latest ≡ false
      → is_known (find_header latest.number (loaded setup o ancestor some_new)) latest ≡ true
  unfolding set_headers
  loaded_known [] same ends =
      is_known-latest setup latest o ancestor late place
        (omega (arith, run.0, keeps.top, ap size same))
  loaded_known (h ∷ rest) same ends =
      is_known-set_headers h rest (kept_headers (first_block setup ancestor) o) latest ends

  pub pruned-IsTracking :
      (m : Merged)
      → 0 < setup.limits.max_retained_headers
      → ends_elsewhere new latest ≡ false
      → IsGathered setup.deployment_block latest.number (loaded setup o ancestor new) m
      → size m.logs ≤ setup.limits.max_retained_logs
      → IsTracking setup
          (record {
            headers = pruned setup latest.number (loaded setup o ancestor new);
            logs = m.logs;
            head = some latest;
          })
          latest
  pruned-IsTracking m window ends g small = record {
    known = ground (
      arith,
      find_header-keep_headers
          (λ n. leb (latest.number + 1) (n + setup.limits.max_retained_headers)) latest.number
          (loaded setup o ancestor new),
      loaded_known new refl ends,
    );
    linked =
        keep_headers-Linked setup.deployment_block (latest.number + 1) (loaded setup o ancestor new)
          (λ n. leb (latest.number + 1) (n + setup.limits.max_retained_headers)) loaded-Linked.0;
    within =
        keep_headers-Within setup.deployment_block (latest.number + 1) (loaded setup o ancestor new)
          (λ n. leb (latest.number + 1) (n + setup.limits.max_retained_headers)) (latest.number + 1)
          loaded-Linked.1 (λ n p b. b);
    recent = λ n h e. (pruned_stored setup latest.number (loaded setup o ancestor new) n h e).0;
    anchored =
        AllLogs-map _ _ m.logs
          (λ l a. record {
            low_end = a.low_end;
            high_end = a.high_end;
            anchor = λ h found.
                a.anchor h
                  (pruned_stored setup latest.number (loaded setup o ancestor new) l.block_number h
                    found).1;
          })
          g.anchored;
    distinct = g.distinct;
    bounded = small;
  }
