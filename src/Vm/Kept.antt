-- ===== src/Vm/Kept.antt =====
-- AdminVirtualMachine.hpp: the life cycle of a machine and its users' input against the invariant.
use collab_vm_server.Base.{ℕ, Bool, true, false, not, ◌&&◌, List, [], ◌∷◌}
use collab_vm_server.Timer.{TimerApi}
use collab_vm_server.Message.{Text}
use collab_vm_server.Vote.{VoteWait}
use collab_vm_server.Vm.Settings.{rdp, vnc, other_protocol}
use collab_vm_server.Vm.State.{
  Command, command, execute_if_any, start, stop, restart, on_start, on_stop, on_connect_delay,
  read_instruction, start_guacamole_client,
}
use collab_vm_server.Vm.Operations.{State}
use collab_vm_server.Vm.Invariant.{VmInv, with_sent-VmInv, if-VmInv}

module _ (turn_api : TimerApi ℕ) (vote_api : TimerApi VoteWait) (vote_limit : ℕ) where
  abbrev S : Type 0
  S = State turn_api vote_api vote_limit

  abbrev Inv : S → Type 0
  Inv s = VmInv turn_api vote_api vote_limit s

  -- What is not the queue, the vote or the channel does not matter.
  machine-VmInv :
      (active connected : Bool) (commands : List Command) (s : S)
      → Inv s
      → Inv (record s { active = active; connected = connected; commands = commands })
  machine-VmInv active connected commands s v = record {
    placed = v.placed;
    timed = v.timed;
    counted = v.counted;
    tally = v.tally;
  }

  execute-VmInv : (c : Text) (s : S) → Inv s → Inv (execute_if_any c s)
  execute-VmInv [] s v = v
  execute-VmInv (c ∷ cs) s v = machine-VmInv s.active s.connected _ s v

  client-VmInv : (s : S) → Inv s → Inv (start_guacamole_client s)
  unfolding start_guacamole_client
  client-VmInv s v =
      elim s.settings.protocol
        as (λ p. Inv (elim p [
          | rdp ↦ command Command.start_rdp s
          | vnc ↦ command Command.start_vnc s
          | other_protocol ↦ s
        ])) [
          | rdp ↦ machine-VmInv s.active s.connected _ s v
          | vnc ↦ machine-VmInv s.active s.connected _ s v
          | other_protocol ↦ v
        ]

  pub start-VmInv : (s : S) → Inv s → Inv (start s)
  unfolding start
  start-VmInv s v =
      let t = execute_if_any s.settings.start_command s in
      if-VmInv turn_api vote_api vote_limit s.active s _ v (
        client-VmInv _
          (machine-VmInv true t.connected _ t (execute-VmInv s.settings.start_command s v)))

  pub stop-VmInv : (s : S) → Inv s → Inv (stop s)
  unfolding stop
  stop-VmInv s v =
      let t = execute_if_any s.settings.stop_command s in
      if-VmInv turn_api vote_api vote_limit (not s.active) s _ v
        (machine-VmInv false t.connected _ t (execute-VmInv s.settings.stop_command s v))

  pub restart-VmInv : (s : S) → Inv s → Inv (restart s)
  unfolding restart
  restart-VmInv s v =
      let t = execute_if_any s.settings.restart_command s in
      if-VmInv turn_api vote_api vote_limit (not s.active) s _ v
        (machine-VmInv true t.connected _ t (execute-VmInv s.settings.restart_command s v))

  pub on_start-VmInv : (join : List ℕ) (s : S) → Inv s → Inv (on_start join s)
  unfolding on_start
  on_start-VmInv join s v =
      if-VmInv turn_api vote_api vote_limit (not s.active) _ _
        (machine-VmInv s.active s.connected _ s v)
        (with_sent-VmInv turn_api vote_api vote_limit _ _ (machine-VmInv s.active true _ s v))

  pub on_stop-VmInv : (s : S) → Inv s → Inv (on_stop s)
  unfolding on_stop
  on_stop-VmInv s v =
      if-VmInv turn_api vote_api vote_limit (not s.active) _ _ (machine-VmInv s.active false _ s v)
        (machine-VmInv s.active false _ s v)

  pub on_connect_delay-VmInv : (error : Bool) (s : S) → Inv s → Inv (on_connect_delay error s)
  unfolding on_connect_delay
  on_connect_delay-VmInv error s v =
      if-VmInv turn_api vote_api vote_limit (not error && s.active) _ s (client-VmInv s v) v

  pub read_instruction-VmInv :
      (u instruction : ℕ) (s : S) → Inv s → Inv (read_instruction u instruction s)
  unfolding read_instruction
  read_instruction-VmInv u instruction s v =
      if-VmInv turn_api vote_api vote_limit _ _ s (machine-VmInv s.active s.connected _ s v) v
