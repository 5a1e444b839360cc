-- ===== src/Vm/State.antt =====
-- AdminVirtualMachine.hpp: the state of one virtual machine (`VmState`), which is a turn controller, a
-- vote controller and a user channel at once, and its life cycle (`Start`, `Stop`, `Restart`,
-- `OnStart`, `OnStop`). Every operation is the body of one handler on the strand of `state_`.
use collab_vm_server.Base.{
  ℕ, ◌-◌, Bool, true, false, not, ◌&&◌, ◌||◌, none, some, List, [], ◌∷◌, ◌++◌, map, ℤ, length,
  replicate, ◌==◌, if◌then◌else◌,
}
use collab_vm_server.Turn.{
  TurnController, Notice, current_user_changed, user_added, user_removed, is_paused,
  get_current_user,
}
use collab_vm_server.Vote.{VoteController}
use collab_vm_server.Message.{
  Text, TurnState, enabled, disabled, paused, Message, vm_turn_info, guac_instr,
}
use collab_vm_server.Channel.{Channel, broadcast}
use collab_vm_server.Channel.Users.{UserMap, find, is_admin}
use collab_vm_server.Vm.Settings.{VmSettings, rdp, vnc, other_protocol}

-- What the machine asks of the world outside the channel: a shell command, the Guacamole client, the
-- list of virtual machines, a client's socket.
pub data Command : Type 0 where
  execute : Text → Command
  set_guacamole_arguments start_rdp start_vnc stop_guacamole : Command
  forward_instruction : ℕ → Command
  update_vm_info start_connect_delay cancel_connect_delay : Command
  close_socket : ℕ → Command

pub record VmState (TurnTimer VoteTimer : Type 0) : Type 0 where
  pub turn : TurnController TurnTimer
  pub vote : VoteController VoteTimer
  pub channel : Channel
  pub settings : VmSettings
  pub active : Bool
  pub connected : Bool
  pub commands : List Command

-- The names of the queued users that are in the channel.
abbrev pub queue_names : UserMap → List ℕ → List Text
queue_names us [] = []
queue_names us (u ∷ q) =
    let rest = queue_names us q in elim (find u us) [ none ↦ rest | some d ↦ d.username ∷ rest ]

-- Several messages for each user.
abbrev pub send_each : List Message → UserMap → List (ℕ × Message)
send_each ms [] = []
send_each ms ((u, d) ∷ us) = map (λ m. (u, m)) ms ++ send_each ms us

module _ {T V : Type 0} where
  abbrev pub command : Command → VmState T V → VmState T V
  command c s = record s { commands = s.commands ++ c ∷ [] }

  abbrev pub on_channel : (Channel → Channel) → VmState T V → VmState T V
  on_channel f s = record s { channel = f s.channel }

  abbrev pub turn_state : VmState T V → TurnState
  turn_state s =
      if s.settings.turns_enabled then (if is_paused s.turn then paused else enabled) else disabled

  unfoldable pub broadcast_turn_queue : List ℕ → ℤ → VmState T V → VmState T V
  -- `initUsers` makes a list as long as the queue; what is not set stays empty.
  broadcast_turn_queue queue time_remaining s =
      let names = queue_names s.channel.users queue in
      on_channel
        (broadcast (
          vm_turn_info (turn_state s) time_remaining
            (names ++ replicate (length queue - length names) [])))
        s

  -- The calls of the virtual functions that the turn controller has made.
  unfoldable pub handle_notices : List Notice → VmState T V → VmState T V
  handle_notices [] s = s
  handle_notices (current_user_changed q t ∷ ns) s = handle_notices ns (broadcast_turn_queue q t s)
  handle_notices (user_added q t ∷ ns) s = handle_notices ns (broadcast_turn_queue q t s)
  handle_notices (user_removed q t ∷ ns) s = handle_notices ns (broadcast_turn_queue q t s)

  -- The turn controller after one of its operations, with the calls that it has made.
  unfoldable pub with_turn : TurnController T → VmState T V → VmState T V
  with_turn c s = handle_notices c.notices (record s { turn = record c { notices = [] } })

  abbrev pub has_current_turn : ℕ → VmState T V → Bool
  has_current_turn u s = elim (get_current_user s.turn) [ none ↦ false | some v ↦ v == u ]

  abbrev pub is_channel_admin : ℕ → VmState T V → Bool
  is_channel_admin u s = elim (find u s.channel.users) [ none ↦ false | some d ↦ is_admin d ]

  -- `SetGuacamoleArguments` and `StartGuacamoleClient`.
  unfoldable pub start_guacamole_client : VmState T V → VmState T V
  start_guacamole_client s = elim s.settings.protocol [
    | rdp ↦ command start_rdp s
    | vnc ↦ command start_vnc s
    | other_protocol ↦ s
  ]

  abbrev pub execute_if_any : Text → VmState T V → VmState T V
  execute_if_any [] s = s
  execute_if_any (c ∷ cs) s = command (execute (c ∷ cs)) s

  unfoldable pub start : VmState T V → VmState T V
  unfolding start_guacamole_client
  start s =
      if s.active
      then s
      else start_guacamole_client (
          command set_guacamole_arguments (
            command update_vm_info
              (record (execute_if_any s.settings.start_command s) { active = true })))

  unfoldable pub stop : VmState T V → VmState T V
  stop s =
      if not s.active
      then s
      else command stop_guacamole (
          command cancel_connect_delay
            (record (execute_if_any s.settings.stop_command s) { active = false }))

  unfoldable pub restart : VmState T V → VmState T V
  restart s =
      if not s.active
      then s
      else command stop_guacamole
          (record (execute_if_any s.settings.restart_command s) { active = true })

  -- Guacamole has drawn its first image. `join` is what its join handler sends.
  unfoldable pub on_start : List ℕ → VmState T V → VmState T V
  on_start join s =
      if not s.active
      then command stop_guacamole s
      else on_channel (λ c. record c { sent = c.sent ++ send_each (map guac_instr join) c.users })
          (command update_vm_info (record s { connected = true }))

  -- Guacamole's thread has ended.
  unfoldable pub on_stop : VmState T V → VmState T V
  on_stop s =
      let t = command update_vm_info (record s { connected = false }) in
      if not t.active then t else command start_connect_delay t

  -- The handler of the wait that `on_stop` begins.
  unfoldable pub on_connect_delay : Bool → VmState T V → VmState T V
  unfolding start_guacamole_client
  on_connect_delay error s = if not error && s.active then start_guacamole_client s else s

  -- `ReadInstruction`, with the instruction that its callback reads.
  unfoldable pub read_instruction : ℕ → ℕ → VmState T V → VmState T V
  read_instruction u instruction s =
      if s.connected && (has_current_turn u s && not (is_paused s.turn) || is_channel_admin u s)
      then command (forward_instruction instruction) s
      else s
