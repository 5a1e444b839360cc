-- ===== src/VmList.antt =====
-- CollabVmServer.hpp (`VirtualMachinesList`): the machines, the two lists that clients see and those who
-- watch them. A machine's object has its own number, since the answer to a question may arrive when the
-- machine has left the map. `none` is a fault: a null pointer, or a write past the end of a list.
pub mod Resizable
pub mod Ids
pub mod Deletion
pub mod Answers
pub mod Announce
pub mod Noted
pub mod Refresh
mod Examples
use collab_vm_server.Base.{
  ℕ, zero, suc, ◌+◌, ◌-◌, Bool, true, false, not, ◌&&◌, Option, none, some, List, [], ◌∷◌, ◌++◌,
  length, map, ◌==◌, update, is_empty, if◌then◌else◌, ◌>>=◌,
}
use collab_vm_server.Message.{Text}
use Resizable.{add_element, remove_first, update_element, fill}

pub data VmStatus : Type 0 where
  running starting stopped unset : VmStatus

pub record AdminVmInfo : Type 0 where
  pub id : ℕ
  pub name : Text
  pub status : VmStatus

-- `details` are the settings that are sent on as they are: operating system, uploads, input, ram, disk
-- space, safe for work.
pub record VmInfo : Type 0 where
  pub id : ℕ
  pub host : Text
  pub name : Text
  pub details : Text
  pub viewer_count : ℕ

-- What a machine puts into a `VmInfoProducer`.
pub record Answer : Type 0 where
  pub admin_vm_info : AdminVmInfo
  pub vm_info : Option VmInfo
  pub png_bytes : Text

-- What `SetVmInfo` looks at.
pub record VmFacts : Type 0 where
  pub name : Text
  pub active : Bool
  pub connected : Bool
  pub details : Text
  pub users : ℕ
  pub screenshot : Option Text

abbrev pub set_admin_vm_info : ℕ → VmFacts → AdminVmInfo
set_admin_vm_info id s = record {
  id = id;
  name = s.name;
  status = if s.connected then running else if s.active then starting else stopped;
}

abbrev pub set_vm_info : ℕ → VmFacts → Answer
set_vm_info id s =
    if not s.active
    then record { admin_vm_info = set_admin_vm_info id s; vm_info = none; png_bytes = [] }
    else record {
      admin_vm_info = set_admin_vm_info id s;
      vm_info = some (record {
        id = id;
        host = [];
        name = s.name;
        details = s.details;
        viewer_count = s.users;
      });
      png_bytes = elim s.screenshot [ none ↦ [] | some png ↦ png ];
    }

pub record AdminVm : Type 0 where
  pub has_vm_info : Bool
  pub pending_admin_vm_info : Option AdminVmInfo
  pub pending_vm_info : Option VmInfo

pub data ListMessage : Type 0 where
  vm_list : List VmInfo → ListMessage
  admin_vm_list : List AdminVmInfo → ListMessage
  vm_thumbnail : ℕ → Text → ListMessage

-- Calls of a machine's object: the questions of the two kinds of update, and its end.
pub data VmCall : Type 0 where
  ask ask_one : ℕ → ℕ → VmCall
  stop_and_clear : ℕ → VmCall

pub record VirtualMachinesList : Type 0 where
  -- The map: ids with the numbers of the objects.
  pub machines : List (ℕ × ℕ)
  pub objects : ℕ → AdminVm
  pub next_object : ℕ
  pub vm_info_list : List VmInfo
  pub admin_vm_info_list : List AdminVmInfo
  pub vm_list_viewers : List ℕ
  pub admin_vm_list_viewers : List ℕ
  pub thumbnails : List (ℕ × Text)
  pub pending_vm_info_requests : ℕ
  pub pending_vm_info_updates : ℕ
  pub sent : List (ℕ × List ListMessage)
  pub calls : List VmCall

abbrev pub new_admin_vm : AdminVm
new_admin_vm = record { has_vm_info = false; pending_admin_vm_info = none; pending_vm_info = none }

abbrev pub new_list : VirtualMachinesList
new_list = record {
  machines = [];
  objects = λ o. new_admin_vm;
  next_object = 0;
  vm_info_list = [];
  admin_vm_info_list = [];
  vm_list_viewers = [];
  admin_vm_list_viewers = [];
  thumbnails = [];
  pending_vm_info_requests = 0;
  pending_vm_info_updates = 0;
  sent = [];
  calls = [];
}

abbrev pub find_machine : ℕ → List (ℕ × ℕ) → Option ℕ
find_machine id [] = none
find_machine id ((i, o) ∷ ms) = let rest = find_machine id ms in if i == id then some o else rest

abbrev pub erase_machine : ℕ → List (ℕ × ℕ) → List (ℕ × ℕ)
erase_machine id [] = []
erase_machine id ((i, o) ∷ ms) =
    let rest = erase_machine id ms in if i == id then rest else (i, o) ∷ rest

abbrev pub queue_message_batch : ℕ → List ListMessage → VirtualMachinesList → VirtualMachinesList
queue_message_batch viewer ms v = record v { sent = v.sent ++ (viewer, ms) ∷ [] }

abbrev pub queue_message : ℕ → ListMessage → VirtualMachinesList → VirtualMachinesList
queue_message viewer m v = queue_message_batch viewer (m ∷ []) v

abbrev pub send_all : List ℕ → List ListMessage → VirtualMachinesList → VirtualMachinesList
send_all [] ms v = v
send_all (viewer ∷ viewers) ms v = send_all viewers ms (queue_message_batch viewer ms v)

abbrev pub broadcast_to_viewing_admins : VirtualMachinesList → VirtualMachinesList
broadcast_to_viewing_admins v =
    send_all v.admin_vm_list_viewers (admin_vm_list v.admin_vm_info_list ∷ []) v

abbrev pub thumbnail_messages : List (ℕ × Text) → List ListMessage
thumbnail_messages [] = []
thumbnail_messages ((id, png) ∷ ts) = vm_thumbnail id png ∷ thumbnail_messages ts

-- The list with all thumbnails.
abbrev pub list_and_thumbnails : VirtualMachinesList → List ListMessage
list_and_thumbnails v = vm_list v.vm_info_list ∷ thumbnail_messages v.thumbnails

unfoldable pub add_vm_list_viewer : ℕ → VirtualMachinesList → VirtualMachinesList
add_vm_list_viewer viewer v =
    let v' = queue_message_batch viewer (list_and_thumbnails v) v in
    record v' { vm_list_viewers = v'.vm_list_viewers ++ viewer ∷ [] }

unfoldable pub add_admin_vm_list_viewer : ℕ → VirtualMachinesList → VirtualMachinesList
add_admin_vm_list_viewer viewer v =
    queue_message viewer (admin_vm_list v.admin_vm_info_list)
      (record v { admin_vm_list_viewers = v.admin_vm_list_viewers ++ viewer ∷ [] })

-- `vector::erase` of the first element that is found.
abbrev pub erase_viewer : ℕ → List ℕ → List ℕ
erase_viewer u [] = []
erase_viewer u (w ∷ ws) = let rest = erase_viewer u ws in if w == u then ws else w ∷ rest

unfoldable pub remove_vm_list_viewer : ℕ → VirtualMachinesList → VirtualMachinesList
remove_vm_list_viewer viewer v = record v {
  vm_list_viewers = erase_viewer viewer v.vm_list_viewers;
}

unfoldable pub remove_admin_vm_list_viewer : ℕ → VirtualMachinesList → VirtualMachinesList
remove_admin_vm_list_viewer viewer v = record v {
  admin_vm_list_viewers = erase_viewer viewer v.admin_vm_list_viewers;
}

-- A new object with a new element of the list, which the object's constructor fills.
unfoldable pub add_admin_virtual_machine :
    ℕ → VmFacts → VirtualMachinesList → Option VirtualMachinesList
add_admin_virtual_machine id s v =
    let v' = record v {
      admin_vm_info_list = add_element (set_admin_vm_info id s) v.admin_vm_info_list;
      objects =
          update v.objects v.next_object
            (record { has_vm_info = false; pending_admin_vm_info = none; pending_vm_info = none });
      next_object = v.next_object + 1;
    } in
    elim (find_machine id v.machines) [
      | some o ↦ none
      | none ↦ some (record v' { machines = v.machines ++ (id, v.next_object) ∷ [] })
    ]

unfoldable pub remove_admin_virtual_machine :
    ℕ → VirtualMachinesList → Option (Bool × VirtualMachinesList)
remove_admin_virtual_machine id v = elim (find_machine id v.machines) [
  | none ↦ some (false, v)
  | some o ↦ remove_first (λ i. i.id == id) v.admin_vm_info_list >>= λ l. some (
    true,
    record v {
      calls = v.calls ++ stop_and_clear o ∷ [];
      machines = erase_machine id v.machines;
      admin_vm_info_list = l;
    },
  )
]
