-- ===== src/Events/Declared.antt =====
-- tools/client/events.ts: its table of signatures against the declarations of the contract's events.
use challenge_escrow_protoco.Prelude.{String, ◌≡◌, refl, ◌↔◌, some, sym, ◌∙◌}
use challenge_escrow_protoco.Keccak.{keccak256, ascii_bytes}
use challenge_escrow_protoco.Events.Types.{
  EventKind, release_declared, pause_status_changed, challenge_created, acceptance_nonce_advanced,
  challenge_accepted, challenge_cancelled, challenge_expired, outcome_proposed, outcome_disputed,
  challenge_resolved, challenge_voided, winnings_claimed, principal_refunded,
}
use challenge_escrow_protoco.Events.Decode.{event_signature, kind_with}
use challenge_escrow_protoco.Events.Signatures.{kind_with_iff}

-- The events that contracts/src/ChallengeEscrow.sol and ChallengeEscrowKernel.sol declare, with the types
-- of their parameters in the form of the ABI, where an enumeration is a uint8.
unfoldable pub declaration : EventKind → String
declaration release_declared =
    "ReleaseDeclared(bytes32,string,string,string,string,uint256,address,address,uint8,uint8,address,address,bool)"
declaration pause_status_changed = "PauseStatusChanged(address,bool,bool)"
declaration challenge_created =
    "ChallengeCreated(bytes32,bytes32,bytes32,address,uint8,uint256,uint256,uint64,uint64,uint64,uint64,uint64,uint64,uint64,bytes32,bytes32,uint64)"
declaration acceptance_nonce_advanced = "AcceptanceNonceAdvanced(bytes32,address,uint256,uint256)"
declaration challenge_accepted = "ChallengeAccepted(bytes32,address,uint8,uint256,uint64,uint256)"
declaration challenge_cancelled = "ChallengeCancelled(bytes32,address,uint256)"
declaration challenge_expired = "ChallengeExpired(bytes32,address,address,uint256)"
declaration outcome_proposed = "OutcomeProposed(bytes32,address,uint8,uint8,bytes32,uint64)"
declaration outcome_disputed =
    "OutcomeDisputed(bytes32,address,uint8,uint8,bytes32,bytes32,uint64,uint64)"
declaration challenge_resolved =
    "ChallengeResolved(bytes32,address,uint8,uint8,bytes32,bytes32,uint8,address,uint256)"
declaration challenge_voided =
    "ChallengeVoided(bytes32,address,uint8,bytes32,bytes32,uint8,uint256)"
declaration winnings_claimed = "WinningsClaimed(bytes32,bytes32,address,uint256)"
declaration principal_refunded = "PrincipalRefunded(bytes32,bytes32,address,uint8,uint256)"

-- The topic of an event: the hash of its declaration.
unfoldable pub declared_topic : EventKind → String
unfolding declaration keccak256
declared_topic k = keccak256 (ascii_bytes (declaration k))

event_signature-declared : (k : EventKind) → event_signature k ≡ declared_topic k
unfolding event_signature declared_topic
event_signature-declared release_declared = refl
event_signature-declared pause_status_changed = refl
event_signature-declared challenge_created = refl
event_signature-declared acceptance_nonce_advanced = refl
event_signature-declared challenge_accepted = refl
event_signature-declared challenge_cancelled = refl
event_signature-declared challenge_expired = refl
event_signature-declared outcome_proposed = refl
event_signature-declared outcome_disputed = refl
event_signature-declared challenge_resolved = refl
event_signature-declared challenge_voided = refl
event_signature-declared winnings_claimed = refl
event_signature-declared principal_refunded = refl

-- The decoder finds a kind of event for a topic exactly when the topic is the Keccak-256 hash of the
-- declaration of that event in the contract, in the form of the ABI; so the table has the right hash
-- for each of the thirteen events, and no two of them share one.
pub kind_with-declared :
    (s : String) (k : EventKind) → (kind_with s ≡ some k) ↔ (s ≡ declared_topic k)
kind_with-declared s k =
    let (found, finds) = kind_with_iff s k in
    (
      (λ e. found e ∙ event_signature-declared k),
      (λ e. finds (e ∙ sym (event_signature-declared k))),
    )
