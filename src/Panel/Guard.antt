-- ===== src/Panel/Guard.antt =====
-- CollabVmServer.hpp: what a client that is no administrator can do.
use collab_vm_server.Base.{ℕ, ◌≡◌, refl, false, some, Bool-cases, inl, inr, ◌⊎◌}
use collab_vm_server.Message.{Text}
use collab_vm_server.Config.{Setting}
use collab_vm_server.VmList.{add_vm_list_viewer, remove_admin_vm_list_viewer}
use collab_vm_server.Panel.{
  ClientMessage, vm_list_request, server_config_request, server_config_hidden, read_vms,
  server_config_modifications, create_vm, read_vm_config, delete_vm, update_vm_config, start_vms,
  stop_vms, restart_vms, Panel, leave_server_config, request_vm_list, on_message,
}

-- The two states have the same machines, settings and answers, and run the same machines.
abbrev pub SameServer : Panel → Panel → Type 0
SameServer s t =
    ((t.vms.machines ≡ s.vms.machines)
      × (t.vms.admin_vm_info_list ≡ s.vms.admin_vm_info_list)
      × (t.vms.calls ≡ s.vms.calls)
      × (t.server_settings ≡ s.server_settings)
      × (t.vm_config ≡ s.vm_config)
      × (t.responses ≡ s.responses)
      × (t.controls ≡ s.controls))

unchanged : (s : Panel) → SameServer s s
unchanged s = (refl, refl, refl, refl, refl, refl, refl)

request_vm_list-SameServer : (c : ℕ) (s : Panel) → SameServer s (request_vm_list c s)
unfolding request_vm_list add_vm_list_viewer
request_vm_list-SameServer c s = elim (Bool-cases (s.sockets c).is_viewing_vm_list) [
  | inl h ↦ rw h (unchanged s)
  | inr h ↦ rw h (refl, refl, refl, refl, refl, refl, refl)
]

leave_server_config-SameServer : (c : ℕ) (s : Panel) → SameServer s (leave_server_config c s)
unfolding leave_server_config remove_admin_vm_list_viewer
leave_server_config-SameServer c s = elim (Bool-cases (s.sockets c).is_viewing_server_config) [
  | inl h ↦ rw h (refl, refl, refl, refl, refl, refl, refl)
  | inr h ↦ rw h (unchanged s)
]

leave_server_config-sent : (c : ℕ) (s : Panel) → (leave_server_config c s).vms.sent ≡ s.vms.sent
unfolding leave_server_config remove_admin_vm_list_viewer
leave_server_config-sent c s = elim (Bool-cases (s.sockets c).is_viewing_server_config) [
  | inl h ↦ rw h refl
  | inr h ↦ rw h refl
]

module _ (default : ℕ → Text) (write : Setting → Text) (fields_count captcha : ℕ) where
  -- Whichever of the messages about machines and settings a client sends that is no administrator: the
  -- handler does not fault, and machines, settings and the database stay as they are, no machine is
  -- started, stopped or asked, and nothing is sent unless the message requests the list of machines.
  pub on_message-SameServer :
      (m : ClientMessage) (c : ℕ) (s : Panel)
      → (s.sockets c).is_admin ≡ false
      → (t : Panel) × (on_message default write fields_count captcha m c s ≡ some t)
        × SameServer s t
        × ((m ≡ vm_list_request) ⊎ (t.vms.sent ≡ s.vms.sent))
  unfolding on_message
  on_message-SameServer vm_list_request c s h =
      (request_vm_list c s, refl, request_vm_list-SameServer c s, inl refl)
  on_message-SameServer server_config_hidden c s h = (
    leave_server_config c s,
    refl,
    leave_server_config-SameServer c s,
    inr (leave_server_config-sent c s),
  )
  on_message-SameServer server_config_request c s h = (s, rw h refl, unchanged s, inr refl)
  on_message-SameServer read_vms c s h = (s, rw h refl, unchanged s, inr refl)
  on_message-SameServer (server_config_modifications k) c s h =
      (s, rw h refl, unchanged s, inr refl)
  on_message-SameServer (create_vm f) c s h = (s, rw h refl, unchanged s, inr refl)
  on_message-SameServer (read_vm_config id) c s h = (s, rw h refl, unchanged s, inr refl)
  on_message-SameServer (delete_vm id) c s h = (s, rw h refl, unchanged s, inr refl)
  on_message-SameServer (update_vm_config id k) c s h = (s, rw h refl, unchanged s, inr refl)
  on_message-SameServer (start_vms ids) c s h = (s, rw h refl, unchanged s, inr refl)
  on_message-SameServer (stop_vms ids) c s h = (s, rw h refl, unchanged s, inr refl)
  on_message-SameServer (restart_vms ids) c s h = (s, rw h refl, unchanged s, inr refl)
