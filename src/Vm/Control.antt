-- ===== src/Vm/Control.antt =====
-- AdminVirtualMachine.hpp: who loses the control of a machine.
use collab_vm_server.Base.{
  ℕ, ◌≡◌, refl, sym, ap, ◌∙◌, subst, Bool, true, false, not, Option, ◌&&◌, none, some, List, [],
  ◌∷◌, ◌==◌, index_of, arith, Bool-cases, inl, inr,
}
use collab_vm_server.Timer.{TimerApi}
use collab_vm_server.Turn.{TurnController, is_paused, get_current_user, update_current_turn}
use collab_vm_server.Turn
use collab_vm_server.Turn.Timing.{pause_turn_timer-paused}
use collab_vm_server.Vote.{VoteWait}
use collab_vm_server.Channel.Users.{UserData, find, is_admin}
use collab_vm_server.Vm.State.{
  VmState, has_current_turn, is_channel_admin, with_turn, read_instruction,
}
use collab_vm_server.Vm.Operations.{State, remove_user, pause_turn_timer}
use collab_vm_server.Vm.Invariant.{VmInv, with_turn-eq}
use collab_vm_server.Vm.Leaving.{remove_user-VmInv}

-- Whoever is not queued does not have the turn.
not_current :
    {T V : Type 0} (u : ℕ) (s : VmState T V)
    → index_of u s.turn.turn_queue ≡ none
    → has_current_turn u s ≡ false
unfolding get_current_user
not_current u s h = go s.turn.turn_queue h
  where
    go :
        (q : List ℕ)
        → index_of u q ≡ none
        → (elim (elim q as (λ l. Option ℕ) [ [] ↦ none | v ∷ rest ↦ some v ]) as (λ r. Bool) [
          | none ↦ false
          | some v ↦ v == u
        ])
          ≡ false
    go [] h = refl
    go (v ∷ q) h = ground (arith, h)

-- Neither the turn nor the rank: the instruction is dropped.
refused :
    {T V : Type 0} (u instruction : ℕ) (s : VmState T V)
    → (has_current_turn u s && not (is_paused s.turn)) ≡ false
    → is_channel_admin u s ≡ false
    → read_instruction u instruction s ≡ s
unfolding read_instruction
refused u instruction s h k = elim (Bool-cases s.connected) [
  | inl c ↦ rw (c, h, k) refl
  | inr c ↦ rw c refl
]

module _ (turn_api : TimerApi ℕ) (vote_api : TimerApi VoteWait) (vote_limit : ℕ) where
  abbrev S : Type 0
  S = State turn_api vote_api vote_limit

  with_turn-refused :
      (u instruction : ℕ) (d : UserData) (c : TurnController turn_api.Timer) (s : S)
      → find u s.channel.users ≡ some d
      → is_paused c ≡ true
      → is_admin d ≡ false
      → read_instruction u instruction (with_turn c s) ≡ with_turn c s
  with_turn-refused u instruction d c s here p plain =
      let paused : is_paused (with_turn c s).turn ≡ true =
        ap (λ (x : S). is_paused x.turn) (with_turn-eq c s) ∙ p in
      let rank : is_channel_admin u (with_turn c s) ≡ false =
        ap (λ (x : S). is_channel_admin u x) (with_turn-eq c s)
        ∙ rw (here, is_channel_admin) plain in
      refused u instruction (with_turn c s)
        (rw paused (no_turn (has_current_turn u (with_turn c s)))) rank
    where
      no_turn : (b : Bool) → (b && false) ≡ false
      no_turn true = refl
      no_turn false = refl

  pause-refused :
      (now u instruction : ℕ) (d : UserData) (s : S)
      → find u s.channel.users ≡ some d
      → s.settings.turns_enabled ≡ true
      → is_admin d ≡ false
      → let t = pause_turn_timer turn_api vote_api vote_limit now s in
        read_instruction u instruction t ≡ t
  unfolding pause_turn_timer
  pause-refused now u instruction d s here turns plain =
      let c = Turn.pause_turn_timer turn_api now s.turn in
      let same : pause_turn_timer turn_api vote_api vote_limit now s ≡ with_turn c s =
        rw turns refl in
      subst (λ (x : S). read_instruction u instruction x ≡ x) (sym same)
        (with_turn-refused u instruction d c s here (pause_turn_timer-paused turn_api now s.turn)
          plain)

  -- A user who leaves a machine loses its control at once, whether by its turn or by its rank.
  -- When the turn timer is paused every user who is no administrator loses it.
  pub control-revoked :
      (now u instruction : ℕ) (d : UserData) (s : S)
      → find u s.channel.users ≡ some d
      → VmInv turn_api vote_api vote_limit s
      → ((t : S) × (remove_user turn_api vote_api vote_limit now u s ≡ some t)
          × (read_instruction u instruction t ≡ t))
        × (s.settings.turns_enabled ≡ true
            → is_admin d ≡ false
            → let t = pause_turn_timer turn_api vote_api vote_limit now s in
              read_instruction u instruction t ≡ t)
  control-revoked now u instruction d s here v =
      let (t, e, v', gone, line, out) =
        remove_user-VmInv turn_api vote_api vote_limit now u d s here v in
      (
        (
          t,
          e,
          refused u instruction t (rw (not_current u t out) refl)
              (rw (gone, is_channel_admin) refl),
        ),
        λ turns plain. pause-refused now u instruction d s here turns plain,
      )
