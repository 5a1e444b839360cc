-- ===== src/Panel/Invariant.antt =====
-- CollabVmServer.hpp: what the messages of the administrators keep.
use collab_vm_server.Base.{
  ℕ, ◌+◌, ◌^◌, ◌≡◌, ◌<◌, refl, Bool, true, false, not, Option, none, some, [], ◌∷◌, ◌++◌, ==_refl,
  if◌then◌else◌, Bool-cases, Option-cases, inl, inr,
}
use collab_vm_server.Message.{Text}
use collab_vm_server.VmList.{
  VmFacts, VirtualMachinesList, find_machine, add_admin_vm_list_viewer,
  remove_admin_virtual_machine,
}
use collab_vm_server.Panel.{
  ClientMessage, vm_list_request, server_config_request, server_config_hidden, read_vms,
  server_config_modifications, create_vm, read_vm_config, delete_vm, update_vm_config, start_vms,
  stop_vms, restart_vms, Panel, max_id, vm_config, update_settings, start, stop, restart,
  server_config, create_vm_response, send_admin_vm_list, get_new_vm_id, delete_rows,
  leave_server_config, leave_vm_list, request_vm_list, on_message, update_virtual_machine_info,
  on_settings_updated, request_server_config, create_virtual_machine, delete_virtual_machine,
  control_vms, control, respond,
}
use collab_vm_server.Panel.Stored.{Stored, SameViewers, create-Stored, delete-Stored, Stored-same}
use collab_vm_server.Panel.Viewers.{Views-append, Views-same}
use collab_vm_server.Config.{Setting}
use collab_vm_server.Panel.Configured.{modify_server_config-PanelInv}
use collab_vm_server.Panel.Flags.{
  PanelInv, same-PanelInv, views_vms, views_config, flagged, flag-same, control_vms-PanelInv,
  request_vm_list-PanelInv, leave_vm_list-PanelInv, leave_server_config-PanelInv,
}

-- A message of an administrator: it does not fault.
abbrev Does : ℕ → Option Panel → Type 0
Does n result = (s : Panel) × (result ≡ some s) × PanelInv n s

request_config-Does :
    {n : ℕ} (c : ℕ) (s : Panel) → PanelInv n s → Does n (some (request_server_config c s))
unfolding add_admin_vm_list_viewer
request_config-Does c s i = elim (Bool-cases (s.sockets c).is_viewing_server_config) [
  | inl h ↦
      let s' = respond c (server_config s.server_settings.settings) s in
      (s', rw h refl, same-PanelInv s s' i i.stored refl refl (refl, refl))
  | inr h ↦
      let k = record (s.sockets c) { is_viewing_server_config = true } in
      (
        record (respond c (server_config s.server_settings.settings) s) {
          sockets = flagged c k s;
          vms = add_admin_vm_list_viewer c s.vms;
        },
        rw h refl,
        record {
          settings = i.settings;
          stored =
              Stored-same s.vms (add_admin_vm_list_viewer c s.vms) s.vm_config refl refl i.stored;
          viewing_vms =
              Views-same (λ d. views_vms (s.sockets d)) (λ d. views_vms (flagged c k s d))
                s.vms.vm_list_viewers i.viewing_vms (flag-same c s views_vms k refl);
          viewing_config =
              Views-append c (λ d. views_config (s.sockets d)) (λ d. views_config (flagged c k s d))
                s.vms.admin_vm_list_viewers i.viewing_config h (rw (==_refl c) refl)
                (λ d o. rw o refl);
        },
      )
]

create_vm-Does :
    {n : ℕ} (facts : VmFacts) (c : ℕ) (s : Panel)
    → max_id s.vm_config + 1 < 2 ^ 32
    → PanelInv n s
    → Does n (create_virtual_machine facts c s)
create_vm-Does facts c s small i =
    let (v, e, viewers, stored) = create-Stored facts s.vms s.vm_config small i.stored in
    let id = get_new_vm_id s.vm_config in
    let s' =
      respond c (create_vm_response id)
        (record s { vms = send_admin_vm_list c v; vm_config = s.vm_config ++ id ∷ [] }) in
    (
      s',
      rw e refl,
      same-PanelInv s s' i (Stored-same v s'.vms s'.vm_config refl refl stored) refl refl viewers,
    )

delete_vm-Does :
    {n : ℕ} (id c : ℕ) (s : Panel) → PanelInv n s → Does n (delete_virtual_machine id c s)
delete_vm-Does {n} id c s i =
    let (found, v, e, viewers, stored) = delete-Stored id s.vms s.vm_config i.stored in
    finish found v e viewers stored
  where
    finish :
        (found : Bool) (v : VirtualMachinesList)
        → remove_admin_virtual_machine id s.vms ≡ some (found, v)
        → SameViewers s.vms v
        → Stored v (if found then delete_rows id s.vm_config else s.vm_config)
        → Does n (delete_virtual_machine id c s)
    finish false v e viewers stored =
        let s' = record s { vms = v } in
        (s', rw e refl, same-PanelInv s s' i stored refl refl viewers)
    finish true v e viewers stored =
        let s' = record s {
          vm_config = delete_rows id s.vm_config;
          vms = send_admin_vm_list c v;
        } in
        (
          s',
          rw e refl,
          same-PanelInv s s' i (Stored-same v s'.vms s'.vm_config refl refl stored) refl refl
              viewers,
        )

-- A message that looks up one machine and, if it is there, does something that the invariant does not see.
looked_up-Does :
    {n : ℕ} (id : ℕ) (act : ℕ → Panel) (s : Panel)
    → PanelInv n s
    → ((o : ℕ) → PanelInv n (act o))
    → Does n (elim (find_machine id s.vms.machines) as (λ r. Option Panel) [
      | none ↦ some s
      | some o ↦ some (act o)
    ])
looked_up-Does id act s i j = elim (Option-cases (find_machine id s.vms.machines)) [
  | inl e ↦ rw e (s, refl, i)
  | inr (o, e) ↦ rw e (act o, refl, j o)
]

-- A message that only administrators may send.
guarded-Does :
    {n : ℕ} (b : Bool) (s : Panel) (r : Option Panel)
    → PanelInv n s
    → Does n r
    → Does n (if not b then some s else r)
guarded-Does true s r i d = d
guarded-Does false s r i d = (s, refl, i)

allowed-Does :
    {n : ℕ} (b : Bool) (s : Panel) (r : Option Panel)
    → PanelInv n s
    → Does n r
    → Does n (if b then r else some s)
allowed-Does true s r i d = d
allowed-Does false s r i d = (s, refl, i)

on_settings_updated-PanelInv :
    {n : ℕ} (id : ℕ) (is_valid : Bool) (s : Panel)
    → PanelInv n s
    → PanelInv n (on_settings_updated id is_valid s)
on_settings_updated-PanelInv id false s i = i
on_settings_updated-PanelInv id true s i = elim (Option-cases (find_machine id s.vms.machines)) [
  | inl e ↦ rw e i
  | inr (o, e) ↦ rw e (
      same-PanelInv s (update_virtual_machine_info o id s) i
        (Stored-same s.vms (update_virtual_machine_info o id s).vms s.vm_config refl refl i.stored)
        refl refl (refl, refl))
]

-- What can happen to the panel: a message, a client that leaves, the answer of a machine to a change of
-- its settings, and a machine (an object and its id) whose state has changed.
pub data PanelStep : Type 0 where
  receives : ClientMessage → ℕ → PanelStep
  departs : ℕ → PanelStep
  settings_updated : ℕ → Bool → PanelStep
  info_changes : ℕ → ℕ → PanelStep

module _ (default : ℕ → Text) (write : Setting → Text) (fields_count captcha : ℕ) where
  -- `LeaveServerConfig` and `LeaveVmList` are the first two calls of `OnDisconnect`.
  unfoldable pub panel_step : PanelStep → Panel → Option Panel
  panel_step (receives m c) s = on_message default write fields_count captcha m c s
  panel_step (departs c) s = some (leave_vm_list c (leave_server_config c s))
  panel_step (settings_updated id is_valid) s = some (on_settings_updated id is_valid s)
  panel_step (info_changes o id) s = some (update_virtual_machine_info o id s)

  message-Does :
      (m : ClientMessage) (c : ℕ) (s : Panel)
      → max_id s.vm_config + 1 < 2 ^ 32
      → captcha < fields_count
      → PanelInv fields_count s
      → Does fields_count (on_message default write fields_count captcha m c s)
  unfolding on_message
  message-Does vm_list_request c s small k i =
      (request_vm_list c s, refl, request_vm_list-PanelInv c s i)
  message-Does server_config_hidden c s small k i =
      (leave_server_config c s, refl, leave_server_config-PanelInv c s i)
  message-Does server_config_request c s small k i =
      guarded-Does (s.sockets c).is_admin s _ i (request_config-Does c s i)
  message-Does (server_config_modifications changed) c s small k i =
      guarded-Does (s.sockets c).is_admin s _ i
        (modify_server_config-PanelInv default write fields_count captcha changed c s k i)
  message-Does (create_vm facts) c s small k i =
      guarded-Does (s.sockets c).is_admin s _ i (create_vm-Does facts c s small i)
  message-Does read_vms c s small k i =
      let s' = record s { vms = send_admin_vm_list c s.vms } in
      allowed-Does (s.sockets c).is_admin s (some s') i (
        s',
        refl,
        same-PanelInv s s' i (Stored-same s.vms s'.vms s.vm_config refl refl i.stored) refl refl
            (refl, refl),
      )
  message-Does (read_vm_config id) c s small k i = allowed-Does (s.sockets c).is_admin s _ i (
      looked_up-Does id (λ o. respond c (vm_config o) s) s i
        (λ o. same-PanelInv s (respond c (vm_config o) s) i i.stored refl refl (refl, refl)))
  message-Does (update_vm_config id settings) c s small k i =
      guarded-Does (s.sockets c).is_admin s _ i (
        looked_up-Does id (λ o. control (update_settings o settings) s) s i
          (λ o.
            same-PanelInv s (control (update_settings o settings) s) i i.stored refl refl
              (refl, refl)))
  message-Does (delete_vm id) c s small k i =
      guarded-Does (s.sockets c).is_admin s _ i (delete_vm-Does id c s i)
  message-Does (start_vms ids) c s small k i =
      guarded-Does (s.sockets c).is_admin s (some (control_vms start ids s)) i
        (control_vms start ids s, refl, control_vms-PanelInv start ids s i)
  message-Does (stop_vms ids) c s small k i =
      guarded-Does (s.sockets c).is_admin s (some (control_vms stop ids s)) i
        (control_vms stop ids s, refl, control_vms-PanelInv stop ids s i)
  message-Does (restart_vms ids) c s small k i =
      guarded-Does (s.sockets c).is_admin s (some (control_vms restart ids s)) i
        (control_vms restart ids s, refl, control_vms-PanelInv restart ids s i)

  -- While ids are left, a message of any client about machines and settings, whatever it is, the
  -- departure of any client, the answer to a change of a machine's settings and a change of a machine's
  -- state keep the panel in order and do not fault, if the captcha's settings are one of the settings of
  -- the server: the list of all machines holds each machine once, every machine is stored, so that a new
  -- machine never gets an id that is taken, the settings of the server stand at their numbers, and the
  -- viewers of both lists are the clients that are said to view them, once each.
  pub panel_step-PanelInv :
      (k : PanelStep) (s : Panel)
      → max_id s.vm_config + 1 < 2 ^ 32
      → captcha < fields_count
      → PanelInv fields_count s
      → (s' : Panel) × (panel_step k s ≡ some s') × PanelInv fields_count s'
  unfolding panel_step
  panel_step-PanelInv (receives m c) s small k i = message-Does m c s small k i
  panel_step-PanelInv (departs c) s small k i = (
    leave_vm_list c (leave_server_config c s),
    refl,
    leave_vm_list-PanelInv c (leave_server_config c s) (leave_server_config-PanelInv c s i),
  )
  panel_step-PanelInv (settings_updated id is_valid) s small k i =
      (on_settings_updated id is_valid s, refl, on_settings_updated-PanelInv id is_valid s i)
  panel_step-PanelInv (info_changes o id) s small k i =
      let s' = update_virtual_machine_info o id s in
      (
        s',
        refl,
        same-PanelInv s s' i (Stored-same s.vms s'.vms s.vm_config refl refl i.stored) refl refl
            (refl, refl),
      )
