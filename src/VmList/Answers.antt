-- ===== src/VmList/Answers.antt =====
-- CollabVmServer.hpp: the questions to the machines and the handlers of their answers.
use collab_vm_server.Base.{
  ℕ, zero, suc, ◌+◌, ◌-◌, Bool, true, false, ◌&&◌, Option, none, some, List, [], ◌∷◌, ◌++◌, length,
  ◌==◌, update, is_empty, if◌then◌else◌, ◌>>=◌,
}
use collab_vm_server.Message.{Text}
use collab_vm_server.VmList.{
  AdminVmInfo, VmInfo, Answer, AdminVm, unset, VmCall, ask, vm_list, VirtualMachinesList,
  find_machine, send_all, broadcast_to_viewing_admins, list_and_thumbnails,
}
use collab_vm_server.VmList.Resizable.{add_element, remove_first, update_element, fill, cons_option}

-- One question for each machine, with its object and its id.
abbrev pub ask_all : List (ℕ × ℕ) → List VmCall
ask_all [] = []
ask_all ((id, o) ∷ ms) = ask o id ∷ ask_all ms

unfoldable pub update_virtual_machine_info_list : VirtualMachinesList → VirtualMachinesList
update_virtual_machine_info_list v = elim v.pending_vm_info_requests [
  | suc n ↦ v
  | zero ↦ record v {
    pending_vm_info_requests = length v.machines;
    pending_vm_info_updates = 0;
    calls = v.calls ++ ask_all v.machines;
  }
]

abbrev pub blank_admin_vm_info : AdminVmInfo
blank_admin_vm_info = record { id = 0; name = []; status = unset }

abbrev pub blank_vm_info : VmInfo
blank_vm_info = record { id = 0; host = []; name = []; details = []; viewer_count = 0 }

abbrev pub set_pending_vm_info : Answer → AdminVm → AdminVm
set_pending_vm_info a vm = record vm {
  pending_admin_vm_info = some a.admin_vm_info;
  pending_vm_info = a.vm_info;
}

abbrev pub free_vm_info : AdminVm → AdminVm
free_vm_info vm = record vm { pending_admin_vm_info = none; pending_vm_info = none }

-- The elements that the loop over the machines sets, in the order of the map.
abbrev pub pending_admin_vm_infos : (ℕ → AdminVm) → List (ℕ × ℕ) → List AdminVmInfo
pending_admin_vm_infos objects [] = []
pending_admin_vm_infos objects ((id, o) ∷ ms) =
    let rest = pending_admin_vm_infos objects ms in
    cons_option (objects o).pending_admin_vm_info rest

abbrev pub pending_vm_infos : (ℕ → AdminVm) → List (ℕ × ℕ) → List VmInfo
pending_vm_infos objects [] = []
pending_vm_infos objects ((id, o) ∷ ms) =
    let rest = pending_vm_infos objects ms in
    elim (objects o).pending_admin_vm_info [
      | none ↦ rest
      | some i ↦ cons_option (objects o).pending_vm_info rest
    ]

abbrev pub free_all : List (ℕ × ℕ) → (ℕ → AdminVm) → ℕ → AdminVm
free_all [] objects = objects
free_all ((id, o) ∷ ms) objects =
    let freed = update objects o (free_vm_info (objects o)) in
    free_all ms (elim (objects o).pending_admin_vm_info [ none ↦ objects | some i ↦ freed ])

abbrev pub announce_lists : VirtualMachinesList → VirtualMachinesList
announce_lists v =
    broadcast_to_viewing_admins (send_all v.vm_list_viewers (list_and_thumbnails v) v)

-- The last answer: both lists are made anew and sent to those who watch them.
unfoldable pub refresh_lists : VirtualMachinesList → Option VirtualMachinesList
refresh_lists v =
    fill blank_admin_vm_info (length v.machines) (pending_admin_vm_infos v.objects v.machines)
    >>= λ admin_list.
        fill blank_vm_info v.pending_vm_info_updates (pending_vm_infos v.objects v.machines)
        >>= λ list. some (
            announce_lists (record v {
              admin_vm_info_list = admin_list;
              vm_info_list = list;
              objects = free_all v.machines v.objects;
            }))

abbrev pub set_thumbnail : ℕ → Text → List (ℕ × Text) → List (ℕ × Text)
set_thumbnail id png [] = (id, png) ∷ []
set_thumbnail id png ((i, p) ∷ ts) =
    let rest = set_thumbnail id png ts in if i == id then (id, png) ∷ ts else (i, p) ∷ rest

-- What an answer leaves behind, whichever it is. A request less is pending.
abbrev pub note_answer : ℕ → ℕ → Answer → VirtualMachinesList → VirtualMachinesList
note_answer o id a v =
    let has = elim a.vm_info as (λ x. Bool) [ none ↦ false | some i ↦ true ] in
    record v {
      thumbnails =
          if is_empty a.png_bytes then v.thumbnails else set_thumbnail id a.png_bytes v.thumbnails;
      pending_vm_info_updates =
          if has then v.pending_vm_info_updates + 1 else v.pending_vm_info_updates;
      objects =
          update v.objects o (record (set_pending_vm_info a (v.objects o)) { has_vm_info = has });
      pending_vm_info_requests = v.pending_vm_info_requests - 1;
    }

-- The handler of the answer to `ask`.
unfoldable pub on_vm_info : ℕ → ℕ → Answer → VirtualMachinesList → Option VirtualMachinesList
on_vm_info o id a v =
    let v' = note_answer o id a v in
    elim v'.pending_vm_info_requests [ suc n ↦ some v' | zero ↦ refresh_lists v' ]

-- The public list after the answer to `ask_one`: none when it stays as it is.
unfoldable pub change_vm_info :
    ℕ → Answer → Bool → List VmInfo → Option (Option (Bool × List VmInfo))
change_vm_info id a has_vm_info list =
    let is_vm : VmInfo → Bool = λ i. (i.id == id) && is_empty i.host in
    if has_vm_info
    then elim a.vm_info [
      | none ↦ remove_first is_vm list >>= λ l. some (some (false, l))
      | some i ↦ some (some (true, update_element is_vm i list))
    ]
    else elim a.vm_info [ none ↦ some none | some i ↦ some (some (true, add_element i list)) ]

-- The handler of the answer to `ask_one`. The machine is looked up in the map, where it has to be.
unfoldable pub on_one_vm_info : ℕ → Answer → VirtualMachinesList → Option VirtualMachinesList
on_one_vm_info id a v = find_machine id v.machines >>= λ o.
    elim (v.objects o).pending_admin_vm_info [
      | some i ↦
          some (record v { objects = update v.objects o (set_pending_vm_info a (v.objects o)) })
      | none ↦
          let v' = broadcast_to_viewing_admins (record v {
            admin_vm_info_list =
                update_element (λ i. i.id == id) a.admin_vm_info v.admin_vm_info_list;
          }) in
          change_vm_info id a (v.objects o).has_vm_info v'.vm_info_list >>= λ change. elim change [
            | none ↦ some v'
            | some (has, list) ↦
                let v'' = record v' {
                  vm_info_list = list;
                  objects = update v.objects o (record (v.objects o) { has_vm_info = has });
                } in
                some (send_all v''.vm_list_viewers (vm_list v''.vm_info_list ∷ []) v'')
          ]
    ]
