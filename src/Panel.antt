-- ===== src/Panel.antt =====
-- CollabVmServer.hpp (`CollabVmSocket::OnMessage`): the messages about the list of machines and about the
-- settings of the server and of its machines, Database.h (GetNewVmId). The settings of
-- the server are those of Config; those of a machine are texts here, the business of Vm. The schema's
-- number of settings, its default values and the place of the captcha's settings are arguments. `none`
-- is a fault.
pub mod Guard
pub mod Stored
pub mod Viewers
pub mod Flags
pub mod Configured
pub mod Invariant
mod Examples
use collab_vm_server.Base.{
  ℕ, zero, suc, ◌+◌, ◌%◌, ◌^◌, max, Bool, true, false, not, Option, none, some, List, [], ◌∷◌, ◌++◌,
  ◌==◌, update, if◌then◌else◌, ◌>>=◌, is_empty, get_elem?,
}
use collab_vm_server.Message.{Text}
use collab_vm_server.Config.{Setting, ServerSettings, update_server_settings}
use collab_vm_server.VmList.{
  VmFacts, VirtualMachinesList, find_machine, add_vm_list_viewer, add_admin_vm_list_viewer,
  remove_vm_list_viewer, remove_admin_vm_list_viewer, add_admin_virtual_machine,
  remove_admin_virtual_machine, admin_vm_list, queue_message, ask_one,
}

pub data ClientMessage : Type 0 where
  vm_list_request server_config_request server_config_hidden read_vms : ClientMessage
  server_config_modifications : List Setting → ClientMessage
  create_vm : VmFacts → ClientMessage
  read_vm_config delete_vm : ℕ → ClientMessage
  update_vm_config : ℕ → Text → ClientMessage
  start_vms stop_vms restart_vms : List ℕ → ClientMessage

-- The answers, and the calls of a machine's object and of the captcha verifier.
pub data Response : Type 0 where
  server_config : List Setting → Response
  create_vm_response : ℕ → Response
  vm_config : ℕ → Response

pub data Control : Type 0 where
  start stop restart : ℕ → Control
  update_settings : ℕ → Text → Control
  set_captcha_settings : Setting → Control

pub record SocketFlags : Type 0 where
  pub is_admin : Bool
  pub is_viewing_vm_list : Bool
  pub is_viewing_server_config : Bool

pub record Panel : Type 0 where
  pub vms : VirtualMachinesList
  pub sockets : ℕ → SocketFlags
  pub server_settings : ServerSettings
  -- The distinct ids of the table VmConfig.
  pub vm_config : List ℕ
  pub responses : List (ℕ × Response)
  pub controls : List Control

abbrev pub respond : ℕ → Response → Panel → Panel
respond c r s = record s { responses = s.responses ++ (c, r) ∷ [] }

abbrev pub control : Control → Panel → Panel
control k s = record s { controls = s.controls ++ k ∷ [] }

abbrev pub max_id : List ℕ → ℕ
max_id [] = 0
max_id (id ∷ ids) = max id (max_id ids)

abbrev pub get_new_vm_id : List ℕ → ℕ
get_new_vm_id [] = max 0 1
get_new_vm_id (id ∷ ids) = max ((max_id (id ∷ ids) + 1) % 2 ^ 32) 1

abbrev pub delete_rows : ℕ → List ℕ → List ℕ
delete_rows id [] = []
delete_rows id (i ∷ ids) = let rest = delete_rows id ids in if i == id then rest else i ∷ rest

abbrev pub send_admin_vm_list : ℕ → VirtualMachinesList → VirtualMachinesList
send_admin_vm_list c v = queue_message c (admin_vm_list v.admin_vm_info_list) v

-- The message to all viewing administrators but the sender.
abbrev pub respond_excluding : List ℕ → ℕ → Response → Panel → Panel
respond_excluding [] c r s = s
respond_excluding (viewer ∷ viewers) c r s =
    respond_excluding viewers c r (if not (viewer == c) then respond viewer r s else s)

-- The loop over the machines of a message ends at the first that is not there. A machine that starts
-- asks by itself for the update of its entry: `info_changes` of Panel/Invariant.
abbrev pub control_vms : (ℕ → Control) → List ℕ → Panel → Panel
control_vms k [] s = s
control_vms k (id ∷ ids) s = elim (find_machine id s.vms.machines) [
  | none ↦ s
  | some o ↦ control_vms k ids (control (k o) s)
]

abbrev pub request_server_config : ℕ → Panel → Panel
request_server_config c s =
    let s' = respond c (server_config s.server_settings.settings) s in
    if not (s.sockets c).is_viewing_server_config
    then record s' {
      sockets = update s.sockets c (record (s.sockets c) { is_viewing_server_config = true });
      vms = add_admin_vm_list_viewer c s.vms;
    }
    else s'

module _ (default : ℕ → Text) (write : Setting → Text) (fields_count captcha : ℕ) where
  -- `ApplySettings`.
  abbrev pub apply_server_settings : Panel → Option Panel
  apply_server_settings s = get_elem? s.server_settings.settings captcha >>= λ k.
      some (control (set_captcha_settings k) s)

  unfoldable pub modify_server_config : List Setting → ℕ → Panel → Option Panel
  modify_server_config changed_settings c s =
      update_server_settings default write fields_count changed_settings s.server_settings >>= λ k.
      apply_server_settings (record s { server_settings = k }) >>= λ s'. some (
        respond_excluding s'.vms.admin_vm_list_viewers c (server_config s'.server_settings.settings)
          s')

abbrev pub create_virtual_machine : VmFacts → ℕ → Panel → Option Panel
create_virtual_machine facts c s =
    let id = get_new_vm_id s.vm_config in
    add_admin_virtual_machine id facts s.vms >>= λ v. some (
      respond c (create_vm_response id)
        (record s { vms = send_admin_vm_list c v; vm_config = s.vm_config ++ id ∷ [] }))

-- The settings of a machine are sent, or changed, if it is there.
abbrev pub read_settings : ℕ → ℕ → Panel → Option Panel
read_settings id c s = elim (find_machine id s.vms.machines) [
  | none ↦ some s
  | some o ↦ some (respond c (vm_config o) s)
]

abbrev pub modify_settings : ℕ → Text → Panel → Option Panel
modify_settings id settings s = elim (find_machine id s.vms.machines) [
  | none ↦ some s
  | some o ↦ some (control (update_settings o settings) s)
]

-- `UpdateVirtualMachineInfo`: the machine is asked, and its answer is handled by VmList.
abbrev pub update_virtual_machine_info : ℕ → ℕ → Panel → Panel
update_virtual_machine_info o id s = record s {
  vms = record s.vms { calls = s.vms.calls ++ ask_one o id ∷ [] };
}

-- The continuation of `UpdateSettings`.
abbrev pub on_settings_updated : ℕ → Bool → Panel → Panel
on_settings_updated id is_valid s =
    if not is_valid then s else elim (find_machine id s.vms.machines) [
      | none ↦ s
      | some o ↦ update_virtual_machine_info o id s
    ]

abbrev pub delete_virtual_machine : ℕ → ℕ → Panel → Option Panel
delete_virtual_machine id c s = remove_admin_virtual_machine id s.vms >>= λ (found, v).
    if not found
    then some (record s { vms = v })
    else some (record s { vm_config = delete_rows id s.vm_config; vms = send_admin_vm_list c v })

unfoldable pub leave_server_config : ℕ → Panel → Panel
leave_server_config c s = if not (s.sockets c).is_viewing_server_config then s else record s {
  sockets = update s.sockets c (record (s.sockets c) { is_viewing_server_config = false });
  vms = remove_admin_vm_list_viewer c s.vms;
}

unfoldable pub leave_vm_list : ℕ → Panel → Panel
leave_vm_list c s = if not (s.sockets c).is_viewing_vm_list then s else record s {
  sockets = update s.sockets c (record (s.sockets c) { is_viewing_vm_list = false });
  vms = remove_vm_list_viewer c s.vms;
}

unfoldable pub request_vm_list : ℕ → Panel → Panel
request_vm_list c s =
    if not (s.sockets c).is_viewing_vm_list
    then record s {
      sockets = update s.sockets c (record (s.sockets c) { is_viewing_vm_list = true });
      vms = add_vm_list_viewer c s.vms;
    }
    else s

module _ (default : ℕ → Text) (write : Setting → Text) (fields_count captcha : ℕ) where
  unfoldable pub on_message : ClientMessage → ℕ → Panel → Option Panel
  unfolding modify_server_config
  on_message vm_list_request c s = some (request_vm_list c s)
  on_message server_config_request c s =
      if not (s.sockets c).is_admin then some s else some (request_server_config c s)
  on_message (server_config_modifications changed_settings) c s =
      if not (s.sockets c).is_admin
      then some s
      else modify_server_config default write fields_count captcha changed_settings c s
  on_message server_config_hidden c s = some (leave_server_config c s)
  on_message (create_vm facts) c s =
      if not (s.sockets c).is_admin then some s else create_virtual_machine facts c s
  on_message read_vms c s =
      if (s.sockets c).is_admin
      then some (record s { vms = send_admin_vm_list c s.vms })
      else some s
  on_message (read_vm_config id) c s =
      if (s.sockets c).is_admin then read_settings id c s else some s
  on_message (update_vm_config id settings) c s =
      if not (s.sockets c).is_admin then some s else modify_settings id settings s
  on_message (delete_vm id) c s =
      if not (s.sockets c).is_admin then some s else delete_virtual_machine id c s
  on_message (start_vms ids) c s =
      if not (s.sockets c).is_admin then some s else some (control_vms start ids s)
  on_message (stop_vms ids) c s =
      if not (s.sockets c).is_admin then some s else some (control_vms stop ids s)
  on_message (restart_vms ids) c s =
      if not (s.sockets c).is_admin then some s else some (control_vms restart ids s)
