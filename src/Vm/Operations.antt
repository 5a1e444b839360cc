-- ===== src/Vm/Operations.antt =====
-- AdminVirtualMachine.hpp: what users, administrators and timers do to the state of a machine. `none`
-- is a fault of the turn controller. `now` is the time at which a handler runs.
use collab_vm_server.Base.{
  ℕ, ◌*◌, Bool, true, false, not, xor, ◌&&◌, ◌||◌, Option, none, some, List, [], ◌∷◌, ◌++◌, map,
  ◌==◌, if◌then◌else◌, ◌>>=◌,
}
use collab_vm_server.Timer.{TimerApi}
use collab_vm_server.Turn.{
  TurnController, Notice, current_user_changed, user_added, user_removed, is_paused,
  get_current_user, set_turn_time,
}
use collab_vm_server.Turn
use collab_vm_server.Vote.{
  VoteWait, VoteSettings, VoteController, VoteEvent, nothing, vote_start, vote_idle, vote_end,
  Voted, is_cooling_down, add_vote, remove_vote, stop_vote, on_vote_over, on_cooldown_over,
}
use collab_vm_server.Vote
use collab_vm_server.Vote.Tally.{with_ballot, reset_votes}
use collab_vm_server.Message.{
  Text, text_eq, TurnState, enabled, disabled, paused, VoteStatus, vote_disabled, vote_cooling_down,
  in_progress, Message, vm_description, vote_status, vote_result, vm_turn_info, guac_instr,
}
use collab_vm_server.Message
use collab_vm_server.Channel.{Channel, ChannelBase, queue_message, send_all, broadcast}
use collab_vm_server.Channel
use collab_vm_server.Channel.Users.{UserData, UserMap, find, put}
use collab_vm_server.Vm.Settings.{VmSettings, vote_settings, ns_per_second, validate_settings}
use collab_vm_server.Vm.State.{
  VmState, Command, command, close_socket, set_guacamole_arguments, on_channel, with_turn,
  has_current_turn, is_channel_admin, restart,
}

module _ (turn_api : TimerApi ℕ) (vote_api : TimerApi VoteWait) (vote_limit : ℕ) where
  abbrev pub State : Type 0
  State = VmState turn_api.Timer vote_api.Timer

  abbrev pub settings_of_vote : State → VoteSettings
  settings_of_vote s = vote_settings vote_limit s.settings

  unfoldable pub get_vote_status : ℕ → State → VoteStatus
  get_vote_status now s =
      if not s.settings.votes_enabled
      then vote_disabled
      else (if is_cooling_down vote_api s.vote
          then vote_cooling_down
          else (let t = Vote.get_time_remaining vote_api now s.vote in
              if t == 0
              then Message.VoteStatus.vote_idle
              else in_progress t s.vote.yes_vote_count s.vote.no_vote_count))

  abbrev pub broadcast_vote_status : ℕ → State → State
  broadcast_vote_status now s = on_channel (broadcast (vote_status (get_vote_status now s))) s

  -- `OnAddUser`; `join` is what Guacamole's join handler sends.
  unfoldable pub on_add_user : List ℕ → ℕ → ℕ → State → State
  on_add_user join now u s =
      on_channel
        (λ c. record c {
          sent =
              c.sent
              ++ (u, vm_description s.settings.description)
                ∷ (u, vote_status (get_vote_status now s))
                ∷ map (λ i. (u, guac_instr i)) join;
        })
        s

  abbrev pub with_vote : ℕ → UserData → Voted vote_api.Timer → State → State
  with_vote u d v s = record s {
    vote = v.controller;
    channel = record s.channel { users = put u (with_ballot v.ballot d) s.channel.users };
  }

  -- `OnRemoveUser`: the user's place in the queue, and its ballot.
  unfoldable pub return_ballot : ℕ → ℕ → State → State
  return_ballot now u s = elim (find u s.channel.users) [
    | none ↦ s
    | some d ↦
        let v = remove_vote vote_api d.vote_data s.vote in
        let t = with_vote u d v s in if v.counted then broadcast_vote_status now t else t
  ]

  unfoldable pub on_remove_user : ℕ → ℕ → State → Option State
  unfolding return_ballot
  on_remove_user now u s =
      Turn.remove_user turn_api now u s.turn >>= λ r. some (return_ballot now u (with_turn r.0 s))

  -- The channel's side of the machine.
  abbrev pub vm_base : List ℕ → ℕ → ChannelBase State
  vm_base join now = record {
    channel = λ s. s.channel;
    with_channel = λ c s. record s { channel = c };
    on_add_user = on_add_user join now;
    on_remove_user = on_remove_user now;
  }

  unfoldable pub add_user : List ℕ → ℕ → UserData → ℕ → State → State
  add_user join now d u s = Channel.add_user (vm_base join now) d u s

  unfoldable pub remove_user : ℕ → ℕ → State → Option State
  remove_user now u s = Channel.remove_user (vm_base [] now) u s

  unfoldable pub request_turn : ℕ → ℕ → State → State
  request_turn now u s =
      if s.settings.turns_enabled
      then with_turn (Turn.request_turn turn_api now u s.turn).0 s
      else s

  unfoldable pub pause_turn_timer : ℕ → State → State
  pause_turn_timer now s =
      if s.settings.turns_enabled
      then with_turn (Turn.pause_turn_timer turn_api now s.turn) s
      else s

  unfoldable pub resume_turn_timer : ℕ → State → State
  resume_turn_timer now s =
      if s.settings.turns_enabled
      then with_turn (Turn.resume_turn_timer turn_api now s.turn) s
      else s

  unfoldable pub end_current_turn : ℕ → ℕ → State → Option State
  end_current_turn now u s =
      if s.settings.turns_enabled && (has_current_turn u s || is_channel_admin u s)
      then (Turn.end_current_turn turn_api now s.turn >>= λ t. some (with_turn t s))
      else some s

  -- The turn timer runs out, and then the handler that waited for the turn of the user `u` runs.
  unfoldable pub turn_timer_elapses : State → State
  turn_timer_elapses s = record s {
    turn = record s.turn { turn_timer = turn_api.elapse s.turn.turn_timer };
  }

  unfoldable pub turn_timer_done : ℕ → ℕ → State → Option State
  turn_timer_done now u s = Turn.remove_user turn_api now u s.turn >>= λ r. some (with_turn r.0 s)

  unfoldable pub vote : ℕ → ℕ → Bool → State → State
  vote now u voted_yes s = elim (find u s.channel.users) [
    | none ↦ s
    | some d ↦
        let v = add_vote vote_api (settings_of_vote s) now d.vote_data voted_yes s.vote in
        let t = with_vote u d v s in if v.counted then broadcast_vote_status now t else t
  ]

  -- `OnVoteEnd`, with the restart that a passed vote brings.
  unfoldable pub on_vote_end : Bool → State → State
  unfolding restart
  on_vote_end passed s =
      let t = if passed then restart s else s in
      on_channel
        (λ c. record c {
          sent = c.sent ++ send_all (vote_result passed) c.users;
          users = reset_votes c.users;
        })
        t

  unfoldable pub handle_event : ℕ → VoteEvent → State → State
  handle_event now nothing s = s
  handle_event now vote_start s = s
  handle_event now vote_idle s = if s.settings.votes_enabled then broadcast_vote_status now s else s
  handle_event now (vote_end passed) s = on_vote_end passed s

  -- The two handlers of the vote timer.
  unfoldable pub vote_timer_done : ℕ → Bool → State → State
  vote_timer_done now ec s =
      let r = on_vote_over vote_api (settings_of_vote s) now ec s.vote in
      handle_event now r.1 (record s { vote = r.0 })

  unfoldable pub cooldown_timer_done : ℕ → State → State
  cooldown_timer_done now s =
      let r = on_cooldown_over vote_api s.vote in handle_event now r.1 (record s { vote = r.0 })

  abbrev pub close_all : UserMap → List Command
  close_all [] = []
  close_all ((u, d) ∷ us) = close_socket u ∷ close_all us

  -- `ApplySettings`: the new settings are in place when it runs.
  unfoldable pub apply_turn_settings : VmSettings → State → State
  apply_turn_settings previous s =
      let t = record s { turn = set_turn_time (s.settings.turn_time * ns_per_second) s.turn } in
      if not s.settings.turns_enabled && previous.turns_enabled
      then with_turn (Turn.clear turn_api t.turn) t
      else t

  unfoldable pub apply_vote_settings : ℕ → VmSettings → State → State
  apply_vote_settings now previous s =
      if xor s.settings.votes_enabled previous.votes_enabled
      then broadcast_vote_status now (
          if not s.settings.votes_enabled then record s { vote = stop_vote vote_api s.vote } else s)
      else s

  unfoldable pub apply_settings : ℕ → VmSettings → State → State
  unfolding apply_turn_settings apply_vote_settings
  apply_settings now previous s =
      let s1 = apply_vote_settings now previous (apply_turn_settings previous s) in
      let s2 =
        if not (text_eq previous.description s1.settings.description)
        then on_channel (broadcast (vm_description s1.settings.description)) s1
        else s1 in
      let s3 =
        if s2.settings.disallow_guests && not previous.disallow_guests
        then record s2 { commands = s2.commands ++ close_all s2.channel.users }
        else s2 in
      command set_guacamole_arguments s3

  -- `UpdateSettings`, given the list that `UpdateList` makes of the old settings and the changes.
  unfoldable pub update_settings : ℕ → VmSettings → State → State × Bool
  update_settings now new s =
      if validate_settings new
      then (apply_settings now s.settings (record s { settings = new }), true)
      else (s, false)
