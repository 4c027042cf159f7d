-- ===== src/Events/Signatures.antt =====
-- tools/client/events.ts: the table of signatures, read in both directions.
use challenge_escrow_protoco.Prelude.{
  String, ◌≡◌, refl, subst, sym, ◌↔◌, some, List, [], ◌∷◌, str_eq, eq_iff, inl, inr, Bool-cases,
}
use challenge_escrow_protoco.Events.Types.{
  EventKind, release_declared, pause_status_changed, challenge_created, acceptance_nonce_advanced,
  challenge_accepted, challenge_cancelled, challenge_expired, outcome_proposed, outcome_disputed,
  challenge_resolved, challenge_voided, winnings_claimed, principal_refunded,
}
use challenge_escrow_protoco.Events.Decode.{event_signature, search_kind, all_kinds, kind_with}

kind_with-event_signature : (k : EventKind) → kind_with (event_signature k) ≡ some k
unfolding kind_with event_signature
kind_with-event_signature release_declared = refl
kind_with-event_signature pause_status_changed = refl
kind_with-event_signature challenge_created = refl
kind_with-event_signature acceptance_nonce_advanced = refl
kind_with-event_signature challenge_accepted = refl
kind_with-event_signature challenge_cancelled = refl
kind_with-event_signature challenge_expired = refl
kind_with-event_signature outcome_proposed = refl
kind_with-event_signature outcome_disputed = refl
kind_with-event_signature challenge_resolved = refl
kind_with-event_signature challenge_voided = refl
kind_with-event_signature winnings_claimed = refl
kind_with-event_signature principal_refunded = refl

search_kind-found :
    (s : String) (k : EventKind) (ks : List EventKind)
    → search_kind s ks ≡ some k
    → s ≡ event_signature k
unfolding search_kind
search_kind-found s k [] h = cc
search_kind-found s k (j ∷ ks) h = elim (Bool-cases (str_eq (event_signature j) s)) [
  | inl e ↦
      let found : j ≡ k = cc (rw e at h) in
      subst (λ i. s ≡ event_signature i) found (sym ((eq_iff _ _).0 e))
  | inr e ↦ search_kind-found s k ks (rw e at h)
]

-- A text is the signature of a kind exactly when the decoder finds that kind for it: no two kinds
-- share a signature, and `eventSignature` and the table are inverse to each other.
pub kind_with_iff : (s : String) (k : EventKind) → (kind_with s ≡ some k) ↔ (s ≡ event_signature k)
unfolding kind_with
kind_with_iff s k = (
  search_kind-found s k all_kinds,
  (λ e. subst (λ t. kind_with t ≡ some k) (sym e) (kind_with-event_signature k)),
)
