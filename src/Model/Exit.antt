-- ===== src/Model/Exit.antt =====
-- Nobody's silence holds the funds: after the last deadline an action that anybody may take ends an
-- undecided challenge, whether the contract is paused or not.
use challenge_escrow_protoco.Prelude.{
  ℕ, ◌≤◌, String, ◌≡◌, refl, ap, subst, sym, ◌∙◌, Bool, true, false, some, none, lookup,
  lookup-insert, eq_refl, arith, AllEntries-lookup,
}
use challenge_escrow_protoco.Model.Types.{
  State, opened, active, proposed, disputed, Proposal, Dispute, Schedule, Challenge, Model, Action,
}
use challenge_escrow_protoco.Model.Exec.{ok}
use challenge_escrow_protoco.Model.Opening
use challenge_escrow_protoco.Model.Deciding
use challenge_escrow_protoco.Model.Phase.{Terms, Phase, a_won, b_won, held, concretize}
use challenge_escrow_protoco.Model.Spec
use challenge_escrow_protoco.Model.Spec.{conclude, proposed_course, disputed_course, silent_course}
use challenge_escrow_protoco.Model.Settle.{settled}
use challenge_escrow_protoco.Model.Refine
use challenge_escrow_protoco.Model.Sound.{IsSound}
use challenge_escrow_protoco.Model.Invariant.{
  IsEntry, IsValid, settled-IsSafe, find_challenge_found,
}
use challenge_escrow_protoco.Model.Machine.{accepted, snapshot, dispatch, apply}
use challenge_escrow_protoco.Model.Replies.{apply_of_ok}

-- `TERMINAL.has(state)`
abbrev pub is_terminal : State → Bool
is_terminal opened = false
is_terminal active = false
is_terminal proposed = false
is_terminal disputed = false
is_terminal _ = true

-- The action that ends a challenge which waits in a state; no caller is named in it.
abbrev pub timeout_action : String → State → ℕ → Action
timeout_action id opened now = Action.expire id now
timeout_action id active now = Action.void_unproposed id now
timeout_action id proposed now = Action.finalize id now
timeout_action id disputed now = Action.void_unarbitrated id now
timeout_action id _ now = Action.warp

-- The phase that it leads to.
abbrev after_timeout : Phase → Phase
after_timeout (Phase.opened n) = Phase.expired n false
after_timeout (Phase.active n a) = Phase.void (silent_course n a) none false false
after_timeout (Phase.proposed n a p) =
    conclude (proposed_course n a p) p.outcome (some p.evidence_hash)
after_timeout (Phase.disputed n a p d) = Phase.void (disputed_course n a p d) none false false
after_timeout ph = ph

module _ (m : Model) (id : String) (t : Terms) (now : ℕ)
    (late : t.schedule.timeout_void_at ≤ now) where
  expires :
      (n : ℕ)
      → IsSound t (Phase.opened n)
      → Spec.expire t (Phase.opened n) now ≡ ok (after_timeout (Phase.opened n))
  unfolding Spec.expire
  expires n h = ground arith

  voids :
      (n : ℕ) (a : String)
      → IsSound t (Phase.active n a)
      → Spec.void_unproposed t (Phase.active n a) now ≡ ok (after_timeout (Phase.active n a))
  unfolding Spec.void_unproposed
  voids n a h = ground arith

  finalizes :
      (n : ℕ) (a : String) (p : Proposal)
      → IsSound t (Phase.proposed n a p)
      → Spec.finalize t (Phase.proposed n a p) now ≡ ok (after_timeout (Phase.proposed n a p))
  unfolding Spec.finalize
  finalizes n a p h = ground arith

  voids_dispute :
      (n : ℕ) (a : String) (p : Proposal) (d : Dispute)
      → IsSound t (Phase.disputed n a p d)
      → Spec.void_unarbitrated t (Phase.disputed n a p d) now
        ≡ ok (after_timeout (Phase.disputed n a p d))
  unfolding Spec.void_unarbitrated
  voids_dispute n a p d h = ground arith

  times_out :
      (ph : Phase)
      → lookup id m.challenges ≡ some (concretize t ph)
      → IsSound t ph
      → is_terminal (concretize t ph).state ≡ false
      → dispatch (timeout_action id (concretize t ph).state now) m
        ≡ settled m id t ph (ok (after_timeout ph))
  unfolding dispatch Opening.expire Deciding.void_unproposed Deciding.finalize
      Deciding.void_unarbitrated
  times_out (Phase.opened n) found h live =
      find_challenge_found m id (λ c. Opening.expire_of c id now) (concretize t (Phase.opened n))
        found
      ∙ Refine.expire-Refines m id t (Phase.opened n) now
      ∙ ap (settled m id t (Phase.opened n)) (expires n h)
  times_out (Phase.active n a) found h live =
      find_challenge_found m id (λ c. Deciding.void_unproposed_of c id now)
        (concretize t (Phase.active n a)) found
      ∙ Refine.void_unproposed-Refines m id t (Phase.active n a) now h.distinct
      ∙ ap (settled m id t (Phase.active n a)) (voids n a h)
  times_out (Phase.proposed n a p) found h live =
      find_challenge_found m id (λ c. Deciding.finalize_of c id now)
        (concretize t (Phase.proposed n a p)) found
      ∙ Refine.finalize-Refines m id t (Phase.proposed n a p) now h.distinct
      ∙ ap (settled m id t (Phase.proposed n a p)) (finalizes n a p h)
  times_out (Phase.disputed n a p d) found h live =
      find_challenge_found m id (λ c. Deciding.void_unarbitrated_of c id now)
        (concretize t (Phase.disputed n a p d)) found
      ∙ Refine.void_unarbitrated-Refines m id t (Phase.disputed n a p d) now h.distinct
      ∙ ap (settled m id t (Phase.disputed n a p d)) (voids_dispute n a p d h)
  times_out (Phase.resolved k a_won e paid) found h live = cc
  times_out (Phase.resolved k b_won e paid) found h live = cc
  times_out _ found h live = cc

-- The timeout action of an object is accepted, and stores a terminal object.
abbrev pub Exits : Model → String → ℕ → Challenge → Type 0
Exits m id now c =
    (m' : Model) × (c' : Challenge) × (apply (timeout_action id c.state now) m
      ≡ (accepted (snapshot m'), m'))
    × (lookup id m'.challenges ≡ some c')
    × (is_terminal c'.state ≡ true)

terminal_after :
    (t : Terms) (ph : Phase)
    → is_terminal (concretize t ph).state ≡ false
    → is_terminal (concretize t (after_timeout ph)).state ≡ true
terminal_after t (Phase.opened n) live = refl
terminal_after t (Phase.active n a) live = refl
terminal_after t (Phase.proposed n a p) live = ground arith
terminal_after t (Phase.disputed n a p d) live = refl
terminal_after t (Phase.resolved k a_won e paid) live = cc
terminal_after t (Phase.resolved k b_won e paid) live = cc
terminal_after t _ live = cc

held-after_timeout :
    (t : Terms) (ph : Phase)
    → is_terminal (concretize t ph).state ≡ false
    → held t (after_timeout ph) ≤ held t ph
held-after_timeout t (Phase.opened n) live = ground arith
held-after_timeout t (Phase.active n a) live = ground arith
held-after_timeout t (Phase.proposed n a p) live = ground arith
held-after_timeout t (Phase.disputed n a p d) live = ground arith
held-after_timeout t (Phase.resolved k a_won e paid) live = cc
held-after_timeout t (Phase.resolved k b_won e paid) live = cc
held-after_timeout t _ live = cc

concretize-Exits :
    (m : Model) (id : String) (t : Terms) (ph : Phase) (now : ℕ)
    → IsValid m
    → lookup id m.challenges ≡ some (concretize t ph)
    → IsSound t ph
    → t.schedule.timeout_void_at ≤ now
    → is_terminal (concretize t ph).state ≡ false
    → Exits m id now (concretize t ph)
concretize-Exits m id t ph now v found h late live = (
  (settled m id t ph (ok (after_timeout ph))).1,
  concretize t (after_timeout ph),
  apply_of_ok (timeout_action id (concretize t ph).state now) m _ v
      (settled-IsSafe m id t ph (after_timeout ph) v.safe found (held-after_timeout t ph live))
      (times_out m id t now late ph found h live),
  rw (lookup-insert, eq_refl id) refl,
  terminal_after t ph live,
)

schedule_of : (t : Terms) (ph : Phase) → (concretize t ph).schedule ≡ t.schedule
schedule_of t (Phase.opened n) = refl
schedule_of t _ = refl

-- In a valid model, whose liability is exact and a safe integer, an undecided challenge whose last deadline has come is ended by an action that
-- names no caller, paused or not: `apply` accepts it, and the challenge is stored in a terminal
-- state.
pub exit_by_timeout :
    (m : Model) (id : String) (c : Challenge) (now : ℕ)
    → IsValid m
    → lookup id m.challenges ≡ some c
    → c.schedule.timeout_void_at ≤ now
    → is_terminal c.state ≡ false
    → Exits m id now c
exit_by_timeout m id c now v found late live =
    let e : IsEntry id c = AllEntries-lookup IsEntry id {v = c} m.challenges v.entries found in
    subst (Exits m id now) (sym e.object) (
      concretize-Exits m id e.terms e.phase now v (found ∙ ap some e.object) e.sound
        (omega (
          arith,
          ap (λ (s : Schedule). s.timeout_void_at) (schedule_of e.terms e.phase),
          ap (λ (x : Challenge). x.schedule.timeout_void_at) e.object,
          late,
        ))
        (sym (ap (λ (x : Challenge). is_terminal x.state) e.object) ∙ live))
