-- ===== src/Quorum/Serving.antt =====
-- tools/client/rpc.ts: what an endpoint serves, by which the snapshot of its blocks is judged.
use challenge_escrow_protoco.Prelude.{
  String, ◌+◌, ◌==◌, not, ◌||◌, Bool-cases, inl, inr, ◌≤◌, ◌≡◌, refl, sym, subst, ap, ◌∙◌, Bool,
  true, false, Option, some, none, arith, ltb, str_eq, eq_iff, eq_refl, if◌then◌else◌,
}
use challenge_escrow_protoco.Observer.Types.{Header, Answer, answered}
use challenge_escrow_protoco.Observer.Headers.{max_uint64}
use challenge_escrow_protoco.Observer.Hex.{is_hash, lower}
use challenge_escrow_protoco.Quorum.Types.{Endpoint, EndpointSnapshot}
use challenge_escrow_protoco.Quorum.Snapshot.{normalized_header, same_block, coherent_pair}

-- The snapshot of three blocks, without an error.
abbrev pub shown : String → Header → Header → Header → EndpointSnapshot
shown name l s f = record {
  name = name;
  latest = some l;
  safe = some s;
  finalized = some f;
  error = none;
}

-- Two blocks of one chain: the newer is not below the older; of the same number they are the same block,
-- and the one that follows names the other as its parent.
pub record Links (newer older : Header) : Type 0 where
  pub above : older.number ≤ newer.number
  pub same : newer.number ≡ older.number → newer ≡ older
  pub parent : newer.number ≡ older.number + 1 → newer.parent_hash ≡ older.hash

-- A read answers a block, with hashes of 32 bytes, which is shown in lower case.
pub record Reads (a : Answer (Option Header)) (h : Header) : Type 0 where
  pub raw : Header
  pub there : a ≡ answered (some raw)
  pub fits : raw.number ≤ max_uint64
  pub hashed : is_hash raw.hash ≡ true
  pub parented : is_hash raw.parent_hash ≡ true
  pub as_shown :
      h ≡ record { number = raw.number; hash = lower raw.hash; parent_hash = lower raw.parent_hash }

-- What an endpoint serves: finality tags, three blocks of one chain, of which the latest is the one of
-- its block number, and is still the same when it is read again.
pub record Serves (p : Endpoint) (l s f : Header) : Type 0 where
  pub tags : p.has_tags ≡ true
  pub number : p.block_number ≡ answered l.number
  pub first : Reads (p.first_read l.number) l
  pub safe : Reads p.safe_read s
  pub final : Reads p.finalized_read f
  pub again : Reads (p.last_read l.number) l
  pub upper : Links l s
  pub under : Links s f

pub equal_headers : (a b : Header) → same_block a b ≡ true → a ≡ b
equal_headers a b h =
    let n : a.number ≡ b.number = ground arith in
    let e : str_eq a.hash b.hash ≡ true = ground arith in
    let f : str_eq a.parent_hash b.parent_hash ≡ true = ground arith in
    cc (n, (eq_iff a.hash b.hash).0 e, (eq_iff a.parent_hash b.parent_hash).0 f)

pub same_block_self : (a : Header) → same_block a a ≡ true
same_block_self a = ground (arith, eq_refl a.hash, eq_refl a.parent_hash)

pub coherent_pair-Links :
    (newer older : Header) → coherent_pair newer older ≡ true → Links newer older
unfolding coherent_pair
coherent_pair-Links newer older h = record {
  above = ground arith;
  same = λ e. equal_headers newer older (ground arith);
  parent = λ e. (eq_iff newer.parent_hash older.hash).0 (ground arith);
}

pub Links-coherent_pair :
    (newer older : Header) → Links newer older → coherent_pair newer older ≡ true
unfolding coherent_pair
Links-coherent_pair newer older h = elim (Bool-cases (newer.number == older.number)) [
  | inl e ↦
      let one : newer ≡ older = h.same (ground arith) in
      let self : same_block newer older ≡ true = rw one (same_block_self older) in
      ground (arith, h.above)
  | inr e ↦ elim (Bool-cases (newer.number == older.number + 1)) [
    | inl next ↦
        let named : str_eq newer.parent_hash older.hash ≡ true =
          (eq_iff newer.parent_hash older.hash).1 (h.parent (ground arith)) in
        ground (arith, h.above)
    | inr far ↦ ground (arith, h.above)
  ]
]

malformed : Header → Bool
malformed raw = ltb max_uint64 raw.number || not (is_hash raw.hash) || not (is_hash raw.parent_hash)

lowered : Header → Header
lowered raw = record {
  number = raw.number;
  hash = lower raw.hash;
  parent_hash = lower raw.parent_hash;
}

normalized-if :
    (raw : Header)
    → normalized_header (some raw) ≡ (if malformed raw then none else some (lowered raw))
unfolding normalized_header malformed lowered
normalized-if raw = refl

chosen_some :
    (b : Bool) (x h : Header) → (if b then none else some x) ≡ some h → (b ≡ false) × (h ≡ x)
chosen_some true x h e = cc
chosen_some false x h e = (refl, cc)

normalized-Reads :
    (raw h : Header) → normalized_header (some raw) ≡ some h → Reads (answered (some raw)) h
unfolding malformed lowered
normalized-Reads raw h e =
    let (good, shown_as) =
      chosen_some (malformed raw) (lowered raw) h (sym (normalized-if raw) ∙ e) in
    record {
      raw = raw;
      there = refl;
      fits = ground (arith, good);
      hashed = ground (arith, good);
      parented = ground (arith, good);
      as_shown = shown_as;
    }

pub Reads-normalized :
    (a : Answer (Option Header)) (h : Header) (r : Reads a h)
    → normalized_header (some r.raw) ≡ some h
unfolding malformed lowered
Reads-normalized a h r =
    let good : malformed r.raw ≡ false = ground (arith, r.fits, r.hashed, r.parented) in
    normalized-if r.raw ∙ rw good (ap some (sym r.as_shown))

pub Links-equal : (a b c d : Header) → a ≡ c → b ≡ d → Links a b → Links c d
Links-equal a b c d e f h = subst (Links c) f (subst (λ x. Links x b) e h)

pub Reads-option :
    (a : Option Header) (h : Header) → normalized_header a ≡ some h → Reads (answered a) h
unfolding normalized_header
Reads-option none h e = cc
Reads-option (some raw) h e = normalized-Reads raw h e
