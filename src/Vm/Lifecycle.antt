-- ===== src/Vm/Lifecycle.antt =====
-- AdminVirtualMachine.hpp: `Start`, `Stop`, `Restart`, `OnStart` and `OnStop`.
use collab_vm_server.Base.{ℕ, ◌≡◌, inl, inr, Bool, true, false, List, arith, Bool-cases}
use collab_vm_server.Vm.State.{
  VmState, Command, command, stop, on_start, on_stop, on_connect_delay, start_guacamole_client,
}

module _ {T V : Type 0} (s : VmState T V) where
  stop-active : (stop s).active ≡ false
  unfolding stop
  stop-active = elim (Bool-cases s.active) [ inl e ↦ ground (arith, e) | inr e ↦ ground (arith, e) ]

  -- After `Stop`, the end of Guacamole's thread begins no wait: `OnStop` only notes that the machine is
  -- not connected and has the list of machines updated, and a wait that ends now starts nothing. A
  -- Guacamole that draws its first image after `Stop` is only stopped again.
  pub stop-final :
      (error : Bool) (join : List ℕ)
      → (on_stop (stop s) ≡ command Command.update_vm_info (record (stop s) { connected = false }))
        × (on_connect_delay error (stop s) ≡ stop s)
        × (on_connect_delay error (on_stop (stop s)) ≡ on_stop (stop s))
        × (on_start join (stop s) ≡ command Command.stop_guacamole (stop s))
  unfolding on_stop on_connect_delay on_start
  stop-final error join = (
    ground (arith, stop-active),
    ground (arith, stop-active),
    ground (arith, stop-active),
    ground (arith, stop-active),
  )

  -- A machine whose Guacamole ends while it is active and unhindered is started once more: the command
  -- that starts the client follows the one that begins the wait.
  pub on_stop-reconnects :
      s.active ≡ true → on_connect_delay false (on_stop s) ≡ start_guacamole_client (on_stop s)
  unfolding on_stop on_connect_delay
  on_stop-reconnects a = ground (arith, a)
