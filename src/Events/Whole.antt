-- ===== src/Events/Whole.antt =====
-- tools/client/events.ts: `decodeProtocolEvent`, by the decoders of all kinds.
use challenge_escrow_protoco.Prelude.{
  String, ◌≡◌, refl, List, [], ◌∷◌, Option, none, some, sym, ap, ◌∙◌,
}
use challenge_escrow_protoco.Observer.Types.{Log}
use challenge_escrow_protoco.Observer.Hex.{lower}
use challenge_escrow_protoco.Events.Types.{
  EventKind, Defect, ReleaseDeclared, PauseStatusChanged, ChallengeCreated, AcceptanceNonceAdvanced,
  ChallengeAccepted, ChallengeCancelled, ChallengeExpired, OutcomeProposed, OutcomeDisputed,
  ChallengeResolved, ChallengeVoided, WinningsClaimed, PrincipalRefunded, ProtocolEvent, released,
  pause_changed, created, nonce_advanced, accepted, cancelled, expired, proposed, disputed,
  resolved, voided, claimed, refunded, kind_of,
}
use challenge_escrow_protoco.Events.Types
use challenge_escrow_protoco.Events.Exec.{Decoded, Gives, Gives-bind, Gives-then, weaken}
use challenge_escrow_protoco.Events.Words.{bytes32}
use challenge_escrow_protoco.Events.Decode.{
  event_signature, kind_with, tagged, decode_kind, signature_topic, known_kind,
  decode_protocol_event,
}
use challenge_escrow_protoco.Events.Signatures.{kind_with_iff}
use challenge_escrow_protoco.Events.Bounds.{gives, decode_challenge_created-IsScheduled}
use challenge_escrow_protoco.Events.Sound.{
  IsSound, pause-IsSound, nonce-IsSound, accepted-IsSound, cancelled-IsSound, expired-IsSound,
  proposed-IsSound, disputed-IsSound, resolved-IsSound, voided-IsSound, claimed-IsSound,
  refunded-IsSound, released-IsSound,
}

-- What a decoder gives, with its tag.
IsDecoded : EventKind → ProtocolEvent → Type 0
IsDecoded kind e = IsSound e × (kind_of e ≡ kind)

tagged-IsDecoded :
    {A : Type 0} (kind : EventKind) (tag : A → ProtocolEvent) (m : Decoded A)
    → ((a : A) → kind_of (tag a) ≡ kind)
    → Gives (λ a. IsSound (tag a)) m
    → Gives (IsDecoded kind) (tagged tag m)
unfolding tagged IsDecoded
tagged-IsDecoded kind tag m named h = Gives-bind m _ h (λ a p. gives (tag a) (p, named a))

decode_kind-IsDecoded :
    (kind : EventKind) (log : Log) → Gives (IsDecoded kind) (decode_kind kind log)
unfolding decode_kind kind_of
decode_kind-IsDecoded Types.release_declared log =
    tagged-IsDecoded _ released _ (λ e. refl) (released-IsSound log)
decode_kind-IsDecoded Types.pause_status_changed log =
    tagged-IsDecoded _ pause_changed _ (λ e. refl) (pause-IsSound log)
decode_kind-IsDecoded Types.challenge_created log =
    tagged-IsDecoded _ created _ (λ e. refl) (decode_challenge_created-IsScheduled log)
decode_kind-IsDecoded Types.acceptance_nonce_advanced log =
    tagged-IsDecoded _ nonce_advanced _ (λ e. refl) (nonce-IsSound log)
decode_kind-IsDecoded Types.challenge_accepted log =
    tagged-IsDecoded _ accepted _ (λ e. refl) (accepted-IsSound log)
decode_kind-IsDecoded Types.challenge_cancelled log =
    tagged-IsDecoded _ cancelled _ (λ e. refl) (cancelled-IsSound log)
decode_kind-IsDecoded Types.challenge_expired log =
    tagged-IsDecoded _ expired _ (λ e. refl) (expired-IsSound log)
decode_kind-IsDecoded Types.outcome_proposed log =
    tagged-IsDecoded _ proposed _ (λ e. refl) (proposed-IsSound log)
decode_kind-IsDecoded Types.outcome_disputed log =
    tagged-IsDecoded _ disputed _ (λ e. refl) (disputed-IsSound log)
decode_kind-IsDecoded Types.challenge_resolved log =
    tagged-IsDecoded _ resolved _ (λ e. refl) (resolved-IsSound log)
decode_kind-IsDecoded Types.challenge_voided log =
    tagged-IsDecoded _ voided _ (λ e. refl) (voided-IsSound log)
decode_kind-IsDecoded Types.winnings_claimed log =
    tagged-IsDecoded _ claimed _ (λ e. refl) (claimed-IsSound log)
decode_kind-IsDecoded Types.principal_refunded log =
    tagged-IsDecoded _ refunded _ (λ e. refl) (refunded-IsSound log)

abbrev pub signature_of : List String → String
signature_of [] = ""
signature_of (t ∷ ts) = lower t

signature_topic-lower : (ts : List String) → Gives (λ s. s ≡ signature_of ts) (signature_topic ts)
unfolding bytes32
signature_topic-lower [] = record { at = tt }
signature_topic-lower (t ∷ ts) = Gives-then _ _ (gives (lower t) refl)

known_kind-some : (o : Option EventKind) → Gives (λ k. o ≡ some k) (known_kind o)
known_kind-some none = record { at = tt }
known_kind-some (some k) = gives k refl

-- Every event that is decoded is of the kind whose signature is the first topic of its log. A release
-- has a chain, four distinct addresses, at most 18 decimals and value mode 0; a change of the pause is a
-- change; a creation has a stake whose double fits, its deadlines in order and its timeout after every
-- window and within 64 bits; a nonce advances by one; a proposal and a dispute have a reason of their
-- outcome, and their deadlines fit 64 bits, after the start of the arbitration; a resolution is not void
-- and has a reason up to 3, and a parent hash exactly on path 1; a void has a reason up to 5, by timeout
-- that of its path and no hashes, by evidence a final hash, and a parent hash exactly on path 1; a
-- refund is from a state that refunds; and the amounts are above zero.
pub decode_protocol_event-IsSound :
    (log : Log)
    → Gives
        (λ e. IsSound e × (event_signature (kind_of e) ≡ signature_of log.topics))
        (decode_protocol_event log)
unfolding decode_protocol_event IsDecoded
decode_protocol_event-IsSound log =
    Gives-bind (signature_topic log.topics) _ (signature_topic-lower log.topics) λ s first.
      Gives-bind (known_kind (kind_with s)) _ (known_kind-some (kind_with s)) λ k found.
        weaken (decode_kind-IsDecoded k log) λ e sound.
          (sound.0, ap event_signature sound.1 ∙ sym ((kind_with_iff s k).0 found) ∙ first)
