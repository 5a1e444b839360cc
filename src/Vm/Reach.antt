-- ===== src/Vm/Reach.antt =====
-- AdminVirtualMachine.hpp: all that can happen to a machine, as a step relation.
use collab_vm_server.Base.{
  ℕ, ◌<◌, ◌≡◌, subst, Bool, true, false, none, some, List, length, Option-cases, inl, inr,
}
use collab_vm_server.Timer.{TimerApi}
use collab_vm_server.Vote.{VoteWait, voting, cooling_down, no_vote_data, u32}
use collab_vm_server.Channel
use collab_vm_server.Channel.{Channel, ChannelBase, broadcast, insert_user}
use collab_vm_server.Channel.Users.{UserData, find}
use collab_vm_server.Vm.State.{restart}
use collab_vm_server.Vm.Operations.{
  State, add_user, remove_user, request_turn, pause_turn_timer, resume_turn_timer, end_current_turn,
  turn_timer_elapses, turn_timer_done, vote, vote_timer_done, cooldown_timer_done,
}
use collab_vm_server.Vm.Invariant.{
  VmInv, request_turn-VmInv, pause_turn_timer-VmInv, resume_turn_timer-VmInv, vote-VmInv,
}
use collab_vm_server.Vm.Leaving.{
  end_current_turn-VmInv, turn_timer_elapses-VmInv, turn_timer_done-VmInv, remove_user-VmInv,
}
use collab_vm_server.Vm.Events.{add_user-VmInv, vote_timer_done-VmInv, cooldown_timer_done-VmInv}
use collab_vm_server.Vm.Kept.{
  start-VmInv, stop-VmInv, restart-VmInv, on_start-VmInv, on_stop-VmInv, on_connect_delay-VmInv,
  read_instruction-VmInv,
}
use collab_vm_server.Vm.State.{on_connect_delay, read_instruction, start, stop, on_start, on_stop}

module _ (turn_api : TimerApi ℕ) (vote_api : TimerApi VoteWait) (vote_limit : ℕ) where
  abbrev S : Type 0
  S = State turn_api vote_api vote_limit

  abbrev Inv : S → Type 0
  Inv s = VmInv turn_api vote_api vote_limit s

  -- What the users, the administrators, the timers and Guacamole can do to a machine, in any order, as
  -- long as its settings stay as they are.
  -- The handler of a wait on the vote timer runs in the state that its vote has made; a handler of the
  -- turn timer runs some time after the timer has run out, for whichever user it was.
  pub data VmStep (s : S) : S → Type 0 where
    joins :
        (join : List ℕ) (now u : ℕ) (d : UserData)
        → find u s.channel.users ≡ none
        → d.vote_data ≡ no_vote_data
        → VmStep s (add_user turn_api vote_api vote_limit join now d u s)
    leaves :
        (now u : ℕ) {t : S} → remove_user turn_api vote_api vote_limit now u s ≡ some t → VmStep s t
    requests : (now u : ℕ) → VmStep s (request_turn turn_api vote_api vote_limit now u s)
    pauses : (now : ℕ) → VmStep s (pause_turn_timer turn_api vote_api vote_limit now s)
    resumes : (now : ℕ) → VmStep s (resume_turn_timer turn_api vote_api vote_limit now s)
    ends_turn :
        (now u : ℕ) {t : S}
        → end_current_turn turn_api vote_api vote_limit now u s ≡ some t
        → VmStep s t
    turn_runs_out : VmStep s (turn_timer_elapses turn_api vote_api vote_limit s)
    turn_is_over :
        (now u : ℕ) {t : S}
        → turn_timer_done turn_api vote_api vote_limit now u s ≡ some t
        → VmStep s t
    votes :
        (now u : ℕ) (voted_yes : Bool)
        → VmStep s (vote turn_api vote_api vote_limit now u voted_yes s)
    vote_runs_out :
        (now : ℕ)
        → s.settings.votes_enabled ≡ true
        → s.vote.vote_state ≡ voting
        → length s.channel.users < u32
        → VmStep s (vote_timer_done turn_api vote_api vote_limit now false s)
    cooldown_runs_out :
        (now : ℕ)
        → s.vote.vote_state ≡ cooling_down
        → VmStep s (cooldown_timer_done turn_api vote_api vote_limit now s)
    starts : VmStep s (start s)
    stops : VmStep s (stop s)
    restarts : VmStep s (restart s)
    guacamole_starts : (join : List ℕ) → VmStep s (on_start join s)
    guacamole_stops : VmStep s (on_stop s)
    reconnects : (error : Bool) → VmStep s (on_connect_delay error s)
    instructs : (u instruction : ℕ) → VmStep s (read_instruction u instruction s)

  pub data VmReach (s : S) : S → Type 0 where
    here : VmReach s s
    next : {t u : S} → VmReach s t → VmStep t u → VmReach s u

  remove_user-stranger :
      (now u : ℕ) (s : S)
      → find u s.channel.users ≡ none
      → remove_user turn_api vote_api vote_limit now u s ≡ some s
  unfolding remove_user Channel.remove_user
  remove_user-stranger now u s e = simp (e, Channel.remove_user)

  leaves-VmInv :
      (now u : ℕ) (s t : S)
      → remove_user turn_api vote_api vote_limit now u s ≡ some t
      → Inv s
      → Inv t
  leaves-VmInv now u s t e v = elim (Option-cases (find u s.channel.users)) [
    | inl absent ↦ subst Inv (cc (remove_user-stranger now u s absent)) v
    | inr (d, found) ↦
        let (t', r, v', absent, line, out) =
          remove_user-VmInv turn_api vote_api vote_limit now u d s found v in
        subst Inv (cc) v'
  ]

  step-VmInv : {s t : S} → VmStep s t → Inv s → Inv t
  step-VmInv {s} (joins join now u d fresh blank) v =
      add_user-VmInv turn_api vote_api vote_limit join now u d s fresh blank v
  step-VmInv {s} (leaves now u {t} e) v = leaves-VmInv now u s t e v
  step-VmInv {s} (requests now u) v = request_turn-VmInv turn_api vote_api vote_limit now u s v
  step-VmInv {s} (pauses now) v = pause_turn_timer-VmInv turn_api vote_api vote_limit now s v
  step-VmInv {s} (resumes now) v = resume_turn_timer-VmInv turn_api vote_api vote_limit now s v
  step-VmInv {s} (ends_turn now u {t} e) v =
      end_current_turn-VmInv turn_api vote_api vote_limit now u s t e v
  step-VmInv {s} turn_runs_out v = turn_timer_elapses-VmInv turn_api vote_api vote_limit s v
  step-VmInv {s} (turn_is_over now u {t} e) v =
      let (t', e', v') = turn_timer_done-VmInv turn_api vote_api vote_limit now u s v in
      subst Inv (cc) v'
  step-VmInv {s} (votes now u voted_yes) v =
      vote-VmInv turn_api vote_api vote_limit now u voted_yes s v
  step-VmInv {s} (vote_runs_out now enabled state small) v =
      vote_timer_done-VmInv turn_api vote_api vote_limit now s enabled state small v
  step-VmInv {s} (cooldown_runs_out now state) v =
      cooldown_timer_done-VmInv turn_api vote_api vote_limit now s state v
  step-VmInv {s} starts v = start-VmInv turn_api vote_api vote_limit s v
  step-VmInv {s} stops v = stop-VmInv turn_api vote_api vote_limit s v
  step-VmInv {s} restarts v = restart-VmInv turn_api vote_api vote_limit s v
  step-VmInv {s} (guacamole_starts join) v = on_start-VmInv turn_api vote_api vote_limit join s v
  step-VmInv {s} guacamole_stops v = on_stop-VmInv turn_api vote_api vote_limit s v
  step-VmInv {s} (reconnects error) v =
      on_connect_delay-VmInv turn_api vote_api vote_limit error s v
  step-VmInv {s} (instructs u instruction) v =
      read_instruction-VmInv turn_api vote_api vote_limit u instruction s v

  -- The invariant holds in every state that a machine can reach from one in which it holds.
  pub VmReach-VmInv : {s t : S} → VmReach s t → Inv s → Inv t
  VmReach-VmInv here v = v
  VmReach-VmInv (next r st) v = step-VmInv st (VmReach-VmInv r v)
