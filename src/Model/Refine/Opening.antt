-- ===== src/Model/Refine/Opening.antt =====
-- `advance_nonce`, `accept`, `cancel` and `expire` against the specification.
use challenge_escrow_protoco.Prelude.{
  ℕ, String, ◌≡◌, ◌||◌, false, List, ◌∷◌, str_eq, includes, arith, eq_refl, str_eq_comm,
  insert-insert,
}
use challenge_escrow_protoco.Model.Types.{cancelled, expired, Model, Accept}
use challenge_escrow_protoco.Model.Opening.{advance_nonce_of, accept_of, cancel_of, expire_of}
use challenge_escrow_protoco.Model.Phase.{Terms, Phase, concretize}
use challenge_escrow_protoco.Model.Spec
use challenge_escrow_protoco.Model.Settle.{settled, roles}

module _ (m : Model) (id : String) (t : Terms) where
  pub advance_nonce-Refines :
      (ph : Phase) (caller : String) (now : ℕ)
      → advance_nonce_of (concretize t ph) id caller now m
        ≡ settled m id t ph (Spec.advance_nonce t ph caller now)
  unfolding advance_nonce_of Spec.advance_nonce
  advance_nonce-Refines (Phase.opened n) caller now = ground arith
  advance_nonce-Refines _ caller now = ground arith

  -- On the object of any phase, `cancel` does what its specification says: an unaccepted
  -- challenge becomes cancelled with its stake to refund, or the call rejects with the code of
  -- the first condition that fails and changes nothing.
  pub cancel-Refines :
      (ph : Phase) (caller : String) (now : ℕ)
      → cancel_of (concretize t ph) id caller now m
        ≡ settled m id t ph (Spec.cancel t ph caller now)
  unfolding cancel_of Spec.cancel
  cancel-Refines (Phase.opened n) caller now = ground (
    arith,
    eq_refl t.challenger,
    insert-insert id (concretize t (Phase.cancelled n false))
        (record (concretize t (Phase.opened n)) { state = cancelled }) m.challenges,
  )
  cancel-Refines _ caller now = ground arith

  pub expire-Refines :
      (ph : Phase) (now : ℕ)
      → expire_of (concretize t ph) id now m ≡ settled m id t ph (Spec.expire t ph now)
  unfolding expire_of Spec.expire
  expire-Refines (Phase.opened n) now = ground (
    arith,
    eq_refl t.challenger,
    insert-insert id (concretize t (Phase.expired n false))
        (record (concretize t (Phase.opened n)) { state = expired }) m.challenges,
  )
  expire-Refines _ now = ground arith

-- The test of the accepting wallet, as the source and as the specification write it.
barred_lem :
    (a challenger : String) (rest : List String)
    → (str_eq a "" || str_eq a challenger || includes rest a) ≡ includes ("" ∷ challenger ∷ rest) a
unfolding includes
barred_lem a challenger rest = rw (str_eq_comm a "", str_eq_comm a challenger) (ground arith)

pub barred_distinct :
    (a challenger : String) (rest : List String)
    → includes ("" ∷ challenger ∷ rest) a ≡ false
    → str_eq challenger a ≡ false
unfolding includes
barred_distinct a challenger rest h = ground arith

-- On the object of any phase, `accept` does what its specification says: an unaccepted challenge
-- becomes active with the stake added to the liability, or the call rejects with the code of the
-- first condition that fails and changes nothing.
pub accept-Refines :
    (m : Model) (t : Terms) (ph : Phase) (a : Accept)
    → accept_of (concretize t ph) a m ≡ settled m a.id t ph (Spec.accept (roles m) t ph a)
unfolding accept_of Spec.accept
accept-Refines m t (Phase.opened n) a = ground (
  arith,
  barred_lem a.acceptor t.challenger (roles m),
  barred_distinct a.acceptor t.challenger (roles m),
)
accept-Refines m t _ a = ground arith
