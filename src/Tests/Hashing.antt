-- ===== src/Tests/Hashing.antt =====
-- tools/client/keccak.ts on the empty input, and on a challenge and a wallet.
use challenge_escrow_protoco.Prelude.{
  ℕ, zero, suc, ◌<◌, ◌≡◌, refl, some, List, [], ◌∷◌, ◌++◌, arith,
}
use challenge_escrow_protoco.Observer.Hex.{is_data, all_hex}
use challenge_escrow_protoco.Events.Words.{digit_value}
use challenge_escrow_protoco.Keccak.{keccak256, ascii_bytes, compute_entitlement_id, bytes_to_hex}
use challenge_escrow_protoco.Keccak.Shape.{IsBytes, IsHash, compute_entitlement_id-bytes_to_hex}

-- The published hash of the empty input.
keccak256_empty :
    keccak256 [] ≡ "0xc5d2460186f7233c927e7db2dcc703c0e500b653ca82273b7bfad8045d85a470"
unfolding keccak256
keccak256_empty = refl

keccak256_abc :
    keccak256 (97 ∷ 98 ∷ 99 ∷ [])
    ≡ "0x4e03657aea45a94fc7d47ba826c8d667c0d1e6e33a64a036ec44f58fa12d6c45"
unfolding keccak256
keccak256_abc = refl

-- The identifier that tools/client/keccak.test.ts expects.
entitlement_id_expected :
    compute_entitlement_id "0xdddddddddddddddddddddddddddddddddddddddddddddddddddddddddddddddd"
      "0x1111111111111111111111111111111111111111"
    ≡ some "0x471e4edb24bb04f9af556b4e937d6dcac574e1bd6eff709778bd25916361ec60"
unfolding compute_entitlement_id is_data all_hex digit_value
entitlement_id_expected = refl

abbrev repeated : ℕ → ℕ → List ℕ
repeated zero b = []
repeated (suc n) b = b ∷ repeated n b

repeated-IsBytes : (n b : ℕ) → b < 256 → IsBytes (repeated n b)
unfolding IsBytes
repeated-IsBytes zero b h = tt
repeated-IsBytes (suc n) b h = (h, repeated-IsBytes n b h)

compute_entitlement_id-bytes_to_hex_example :
    let id = keccak256 (
      ascii_bytes "challenge-escrow.entitlement-id/v1"
      ++ (0 ∷ (repeated 32 221 ++ repeated 20 17))) in
    (compute_entitlement_id (bytes_to_hex (repeated 32 221)) (bytes_to_hex (repeated 20 17))
      ≡ some id)
    × IsHash id
compute_entitlement_id-bytes_to_hex_example =
    compute_entitlement_id-bytes_to_hex (repeated 32 221) (repeated 20 17)
      (repeated-IsBytes 32 221 (omega arith)) (repeated-IsBytes 20 17 (omega arith)) refl refl
