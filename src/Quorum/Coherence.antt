-- ===== src/Quorum/Coherence.antt =====
-- tools/client/rpc.ts: when the snapshot of an endpoint shows its three blocks.
use challenge_escrow_protoco.Prelude.{
  ℕ, String, ◌==◌, not, ◌||◌, Bool-cases, inl, inr, ◌≡◌, ◌↔◌, refl, sym, subst, ap, ◌∙◌, Bool, true,
  false, Option, some, none, arith, ltb, if◌then◌else◌,
}
use challenge_escrow_protoco.Observer.Types.{Header, Answer, answered, broken}
use challenge_escrow_protoco.Observer.Headers.{max_uint64}
use challenge_escrow_protoco.Quorum.Types.{SnapshotError, Endpoint, EndpointSnapshot}
use challenge_escrow_protoco.Quorum.Snapshot.{
  normalized_header, same_block, is_lost, compare_again, without, coherent_pair, with_tags, judge,
  confirm, examine, read_three, read_number, snapshot,
}
use challenge_escrow_protoco.Quorum.Serving.{
  shown, Links, Reads, Serves, equal_headers, same_block_self, coherent_pair-Links,
  Links-coherent_pair, Reads-normalized, Links-equal, Reads-option,
}

-- From the snapshot back to what the endpoint serves, one function after the other.
module _ (name : String) (l s f : Header) where
  not_without : (other : String) (x : SnapshotError) → without other x ≡ shown name l s f → ⊥
  not_without other x e = let wrong = ap (λ (y : EndpointSnapshot). y.error) e in cc

  -- The test passes, or the snapshot has an error.
  passed :
      (b : Bool) (other : String) (x : SnapshotError) (y : EndpointSnapshot)
      → (if b then without other x else y) ≡ shown name l s f
      → (b ≡ false) × (y ≡ shown name l s f)
  passed true other x y e = absurd (not_without other x e)
  passed false other x y e = (refl, e)

  with_tags-shown :
      (l' s' f' : Header)
      → with_tags name l' s' f' ≡ shown name l s f
      → (l' ≡ l) × (s' ≡ s) × (f' ≡ f) × Links l s × Links s f
  unfolding with_tags
  with_tags-shown l' s' f' e =
      let (ordered, rest) =
        passed (ltb s'.number f'.number || ltb l'.number s'.number) _ _
          (if not (coherent_pair l' s') || not (coherent_pair s' f')
            then without name SnapshotError.finality_chain_invalid
            else shown name l' s' f')
          e in
      let (joined, same) =
        passed (not (coherent_pair l' s') || not (coherent_pair s' f')) _ _ (shown name l' s' f')
          rest in
      let el : l' ≡ l = cc (ap (λ (y : EndpointSnapshot). y.latest) same) in
      let es : s' ≡ s = cc (ap (λ (y : EndpointSnapshot). y.safe) same) in
      let ef : f' ≡ f = cc (ap (λ (y : EndpointSnapshot). y.finalized) same) in
      let upper = coherent_pair-Links l' s' (ground arith) in
      let under = coherent_pair-Links s' f' (ground arith) in
      (el, es, ef, Links-equal _ _ _ _ el es upper, Links-equal _ _ _ _ es ef under)

  judge-shown :
      (l' : Header) (s_ f_ : Option Header)
      → judge name l' s_ f_ ≡ shown name l s f
      → (l' ≡ l) × (s_ ≡ some s) × (f_ ≡ some f) × Links l s × Links s f
  unfolding judge
  judge-shown l' (some s') (some f') e =
      let (el, es, ef, upper, under) = with_tags-shown l' s' f' e in
      (el, ap some es, ap some ef, upper, under)
  judge-shown l' (some s') none e =
      absurd (let wrong = ap (λ (y : EndpointSnapshot). y.error) e in cc)
  judge-shown l' none (some f') e =
      absurd (let wrong = ap (λ (y : EndpointSnapshot). y.error) e in cc)
  judge-shown l' none none e = absurd (let wrong = ap (λ (y : EndpointSnapshot). y.error) e in cc)

  compare_again-shown :
      (l' : Header) (s_ f_ again : Option Header)
      → compare_again name l' s_ f_ again ≡ shown name l s f
      → (again ≡ some l) × (l' ≡ l) × (s_ ≡ some s) × (f_ ≡ some f) × Links l s × Links s f
  unfolding compare_again
  compare_again-shown l' s_ f_ none e = absurd (not_without name _ e)
  compare_again-shown l' s_ f_ (some again) e = elim (Bool-cases (same_block again l')) [
    | inl same ↦
        let (el, es, ef, upper, under) = judge-shown l' s_ f_ (rw same at e) in
        (ap some (equal_headers again l' same ∙ el), el, es, ef, upper, under)
    | inr other ↦ absurd (not_without name _ (rw other at e))
  ]

  confirm-shown :
      (l' : Header) (s_ f_ : Option Header) (a : Answer (Option Header))
      → confirm name l' s_ f_ a ≡ shown name l s f
      → Reads a l × (l' ≡ l) × (s_ ≡ some s) × (f_ ≡ some f) × Links l s × Links s f
  unfolding confirm
  confirm-shown l' s_ f_ broken e = absurd (not_without name _ e)
  confirm-shown l' s_ f_ (answered a) e =
      let (again, el, es, ef, upper, under) =
        compare_again-shown l' s_ f_ (normalized_header a) e in
      (Reads-option a l again, el, es, ef, upper, under)

-- What `Serves` says of the reads, once the block number is known.
record Served (p : Endpoint) (n : ℕ) (a b c : Answer (Option Header)) (l s f : Header)
    : Type 0 where
  numbered : l.number ≡ n
  first : Reads a l
  safe : Reads b s
  final : Reads c f
  again : Reads (p.last_read n) l
  upper : Links l s
  under : Links s f

module _ (p : Endpoint) (l s f : Header) where
  examine-shown :
      (n : ℕ) (a b c : Option Header)
      → examine p n (normalized_header a) (normalized_header b) (normalized_header c)
        ≡ shown p.name l s f
      → Served p n (answered a) (answered b) (answered c) l s f
  unfolding examine
  examine-shown n a b c e = from (normalized_header a) refl e
    where
      from :
          (l_ : Option Header)
          → normalized_header a ≡ l_
          → examine p n l_ (normalized_header b) (normalized_header c) ≡ shown p.name l s f
          → Served p n (answered a) (answered b) (answered c) l s f
      from none at e = absurd (not_without p.name l s f p.name _ e)
      from (some l') at e =
          let (same, rest) =
            passed p.name l s f (not (l'.number == n)) p.name _
              (confirm p.name l' (normalized_header b) (normalized_header c) (p.last_read n)) e in
          let (again, el, es, ef, upper, under) =
            confirm-shown p.name l s f l' (normalized_header b) (normalized_header c)
              (p.last_read n) rest in
          let there : l'.number ≡ n = ground (arith, same) in
          record {
            numbered = ap (λ (h : Header). h.number) (sym el) ∙ there;
            first = Reads-option a l (at ∙ ap some el);
            safe = Reads-option b s es;
            final = Reads-option c f ef;
            again = again;
            upper = upper;
            under = under;
          }

  read_three-shown :
      (n : ℕ) (a b c : Answer (Option Header))
      → read_three p n a b c ≡ shown p.name l s f
      → Served p n a b c l s f
  unfolding read_three
  read_three-shown n (answered a) (answered b) (answered c) e =
      let (fine, rest) =
        passed p.name l s f (is_lost a || is_lost b || is_lost c) p.name _
          (examine p n (normalized_header a) (normalized_header b) (normalized_header c)) e in
      examine-shown n a b c rest
  read_three-shown n broken b c e = absurd (not_without p.name l s f p.name _ e)
  read_three-shown n (answered a) broken c e = absurd (not_without p.name l s f p.name _ e)
  read_three-shown n (answered a) (answered b) broken e =
      absurd (not_without p.name l s f p.name _ e)

  read_number-shown :
      (a : Answer ℕ)
      → read_number p a ≡ shown p.name l s f
      → (n : ℕ) × (a ≡ answered n) × Served p n (p.first_read n) p.safe_read p.finalized_read l s f
  unfolding read_number
  read_number-shown broken e = absurd (not_without p.name l s f p.name _ e)
  read_number-shown (answered n) e =
      let (fits, rest) =
        passed p.name l s f (ltb max_uint64 n) p.name _
          (read_three p n (p.first_read n) p.safe_read p.finalized_read) e in
      (n, refl, read_three-shown n (p.first_read n) p.safe_read p.finalized_read rest)

  shown-Serves : snapshot p ≡ shown p.name l s f → Serves p l s f
  unfolding snapshot read_number read_three examine
  shown-Serves e = elim (Bool-cases p.has_tags) [
    | inl tags ↦
        let (n, numbered, h) = read_number-shown p.block_number (rw tags at e) in
        let same : n ≡ l.number = sym h.numbered in
        record {
          tags = tags;
          number = numbered ∙ ap answered same;
          first = subst (λ k. Reads (p.first_read k) l) same h.first;
          safe = h.safe;
          final = h.final;
          again = subst (λ k. Reads (p.last_read k) l) same h.again;
          upper = h.upper;
          under = h.under;
        }
    | inr bare ↦ absurd (not_without p.name l s f p.name _ (rw bare at e))
  ]

  with_tags-shows :
      (name : String) → Links l s → Links s f → with_tags name l s f ≡ shown name l s f
  unfolding with_tags
  with_tags-shows name upper under =
      let a = Links-coherent_pair l s upper in
      let b = Links-coherent_pair s f under in ground (arith, upper.above, under.above)

  read-shows :
      (a b c d : Header)
      → normalized_header (some a) ≡ some l
      → normalized_header (some b) ≡ some s
      → normalized_header (some c) ≡ some f
      → normalized_header (some d) ≡ some l
      → p.last_read l.number ≡ answered (some d)
      → Links l s
      → Links s f
      → read_three p l.number (answered (some a)) (answered (some b)) (answered (some c))
        ≡ shown p.name l s f
  unfolding read_three examine confirm compare_again judge
  read-shows a b c d ea eb ec ed last upper under =
      let self : (l.number == l.number) ≡ true = ground arith in
      rw (ea, eb, ec, self, last, ed, same_block_self l) (with_tags-shows p.name upper under)

  Serves-shown : Serves p l s f → snapshot p ≡ shown p.name l s f
  unfolding snapshot read_number read_three examine
  Serves-shown h =
      let n : l.number ≡ h.first.raw.number = ap (λ (x : Header). x.number) h.first.as_shown in
      let fits : ltb max_uint64 l.number ≡ false = ground (arith, n, h.first.fits) in
      rw (h.tags, h.number, fits, h.first.there, h.safe.there, h.final.there)
        (read-shows h.first.raw h.safe.raw h.final.raw h.again.raw (Reads-normalized _ l h.first)
          (Reads-normalized _ s h.safe) (Reads-normalized _ f h.final)
          (Reads-normalized _ l h.again) h.again.there h.upper h.under)

-- The snapshot shows three blocks without an error exactly when the endpoint serves them: it has finality
-- tags; it answers the latest block at its block number, twice alike, and a safe and a finalized one, with
-- hashes of 32 bytes; and they are of one chain: none above the one before, two of the same number the
-- same block, and of two that follow each other the newer naming the older as its parent.
pub snapshot-Serves :
    (p : Endpoint) (l s f : Header) → (snapshot p ≡ shown p.name l s f) ↔ Serves p l s f
snapshot-Serves p l s f = (shown-Serves p l s f, Serves-shown p l s f)
