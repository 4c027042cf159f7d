-- ===== src/Observer/First.antt =====
-- The first synchronisation of tools/client/observer.ts with a provider that serves one chain.
use challenge_escrow_protoco.Prelude.{
  ℕ, ◌+◌, ◌-◌, ◌≤◌, ◌≡◌, refl, sym, ap, subst, false, some, none, List, [], ◌∷◌, arith, leb, true,
  eq_refl,
}
use challenge_escrow_protoco.Observer.Types.{
  Header, RawLog, answered, Provider, Setup, SyncResult, Observer,
}
use challenge_escrow_protoco.Observer.Hex.{lower}
use challenge_escrow_protoco.Observer.Headers.{max_uint64, same_header, set_headers}
use challenge_escrow_protoco.Observer.Logs.{size, copy_log, find_log, merge_logs, logs_before}
use challenge_escrow_protoco.Observer.Returning.{
  Returns, Returns-bind, Returns-done, Returns-unless, Returns-await,
}
use challenge_escrow_protoco.Observer.Sync.{
  check_span, read_head, find_ancestor, ends_elsewhere, fetch_logs, rebuild, sync_once, fresh,
}
use challenge_escrow_protoco.Observer.Steady.{
  IsChain, normal, stretch, load_header-Returns, load_headers-Returns, stretch-ends, stretch_found,
}
use challenge_escrow_protoco.Observer.Served.{IsServed, AllServed, AreApart, merge_logs-Returns}

-- What a provider serves at every read: one chain up to a head, and the logs of the contract on it.
pub record IsSteady (setup : Setup) (provider : Provider) (chain : ℕ → Header) (latest : ℕ)
    (raws : List RawLog) : Type 0 where
  pub chained : IsChain chain
  pub heads : (s : ℕ) → provider.block_number s ≡ answered latest
  pub blocks : (s n : ℕ) → provider.block_by_number s n ≡ answered (some (chain n))
  pub logs : (s : ℕ) → provider.get_logs s setup.deployment_block latest ≡ answered raws
  pub served : AllServed (IsServed setup chain setup.deployment_block latest) raws
  pub apart : AreApart raws

-- The limits leave room for the first synchronisation.
pub record HasRoom (setup : Setup) (latest : ℕ) (raws : List RawLog) : Type 0 where
  pub deployed : setup.deployment_block ≤ latest
  pub small : latest ≤ max_uint64
  pub span : latest - setup.deployment_block + 1 ≤ setup.limits.max_block_span
  pub fetched : size raws ≤ setup.limits.max_logs_per_sync
  pub retained : size raws ≤ setup.limits.max_retained_logs

-- The synchronisation reached the head of the chain and added all the logs.
abbrev pub Reached : (ℕ → Header) → ℕ → List RawLog → SyncResult × Observer → Type 0
Reached chain latest raws (r, o) =
    (o.head ≡ some (normal (chain latest))) × (r.added_logs ≡ size raws) × (size o.logs ≡ size raws)

module _ (setup : Setup) (provider : Provider) (chain : ℕ → Header) (latest : ℕ)
    (raws : List RawLog) (steady : IsSteady setup provider chain latest raws)
    (room : HasRoom setup latest raws) where
  none_found : (rs : List RawLog) → AllServed (λ r. find_log (copy_log r.log) [] ≡ none) rs
  unfolding find_log
  none_found [] = tt
  none_found (r ∷ rs) = (refl, none_found rs)

  read_head-Returns : Returns (λ h. h ≡ normal (chain latest)) (read_head provider setup none)
  unfolding read_head check_span
  read_head-Returns = Returns-bind _ _ (Returns-await _ latest steady.heads) (λ n same. rw same (
      Returns-unless _ _ _ (ground (arith, room.deployed, room.small)) (
        Returns-unless _ _ _ (ground (arith, room.span))
          (load_header-Returns provider chain steady.chained steady.blocks latest room.small))))

  fetch_logs-Returns : Returns (λ l. l ≡ raws) (fetch_logs provider setup.deployment_block latest)
  unfolding fetch_logs
  fetch_logs-Returns =
      let near : leb setup.deployment_block latest ≡ true = ground (arith, room.deployed) in
      rw near (Returns-await _ raws steady.logs)

  -- The stored form of the head, with its number written out.
  abbrev goal : Header
  goal = record {
    number = latest;
    hash = lower (chain latest).hash;
    parent_hash = lower (chain latest).parent_hash;
  }

  normal_lem : normal (chain latest) ≡ goal
  normal_lem = rw (steady.chained.number latest) refl

  merged-Returns :
      (hs : List Header)
      → Returns
          (λ m. (size m.logs ≡ 0 + size raws) × (m.added ≡ 0 + size raws))
          (merge_logs setup setup.deployment_block latest
            (set_headers
              (stretch chain (latest + 1 - setup.deployment_block) setup.deployment_block)
              hs)
            raws
            (record { logs = []; added = 0 }))
  merged-Returns hs =
      merge_logs-Returns setup chain setup.deployment_block latest _
        (λ n low high.
          stretch_found provider chain steady.chained steady.blocks
            (latest + 1 - setup.deployment_block) n setup.deployment_block hs low
            (omega (arith, low, high, room.deployed)))
        raws _ steady.served (none_found raws) steady.apart

  rebuild-Returns :
      Returns
        (Reached chain latest raws)
        (rebuild provider setup fresh (normal (chain latest)) none)
  unfolding rebuild logs_before same_header
  rebuild-Returns = rw (steady.chained.number latest) (
      Returns-unless _ _ _ (ground arith) (
        Returns-bind _ _
          (load_headers-Returns provider chain steady.chained steady.blocks
            (latest + 1 - setup.deployment_block) setup.deployment_block none
            (omega (arith, room.deployed, room.small)) refl)
          (λ new same. rw same (
            Returns-unless _ _ _
              (subst
                (λ h.
                  ends_elsewhere
                    (stretch chain (latest + 1 - setup.deployment_block) setup.deployment_block) h
                  ≡ false)
                normal_lem
                (stretch-ends provider chain steady.chained steady.blocks
                  (latest + 1 - setup.deployment_block) setup.deployment_block latest
                  (omega (arith, room.deployed))))
              (Returns-bind _ _ fetch_logs-Returns (λ fetched e. rw e (
                Returns-unless _ _ _ (ground (arith, room.fetched)) (
                  Returns-bind _ _ (merged-Returns _) (λ m (kept, added).
                    Returns-unless _ _ _ (ground (arith, kept, room.retained)) (
                      Returns-bind _ _
                        (load_header-Returns provider chain steady.chained steady.blocks latest
                          room.small)
                        (λ final f. rw f (
                          Returns-unless _ _ _
                            (ground (
                              arith,
                              steady.chained.number latest,
                              eq_refl (lower (lower (chain latest).hash)),
                              eq_refl (lower (lower (chain latest).parent_hash)),
                            ))
                            (Returns-done _ (
                              ap (λ h. some h) (sym normal_lem),
                              omega (arith, added),
                              omega (arith, kept),
                            ))))))))))))))

  -- With a provider that serves one chain of well-formed headers up to a head and well-formed logs of
  -- the contract on it, without two of the same key, and with limits that leave room, the first
  -- synchronisation of a new observer returns: the observer is at that head, and all the logs are added.
  pub first_sync-Returns : Returns (Reached chain latest raws) (sync_once provider setup fresh)
  unfolding sync_once find_ancestor
  first_sync-Returns = Returns-bind _ _ read_head-Returns (λ h same. rw same (
      Returns-bind _ _ (Returns-done {P = λ a. a ≡ none} none refl)
        (λ ancestor e. rw e rebuild-Returns)))
