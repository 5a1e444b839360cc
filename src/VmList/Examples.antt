-- ===== src/VmList/Examples.antt =====
-- CollabVmServer.hpp: two machines.
use collab_vm_server.Base.{ℕ, zero, suc, ◌≡◌, refl, true, false, some, [], ◌∷◌, ◌++◌}
use mathlib.Core.List.{Permᴰ}
use collab_vm_server.VmList.{
  Answer, VmFacts, set_vm_info, AdminVmInfo, VirtualMachinesList, new_list, running, admin_vm_list,
  list_and_thumbnails,
}
use collab_vm_server.VmList.Answers.{update_virtual_machine_info_list}
use collab_vm_server.VmList.Announce.{deliveries}
use collab_vm_server.VmList.Noted.{admin_answers, vm_answers}
use collab_vm_server.VmList.Refresh.{on_answers, on_answers-refresh}

abbrev info_of : ℕ → AdminVmInfo
info_of id = record { id = id; name = 118 ∷ []; status = running }

abbrev two_machines : VirtualMachinesList
two_machines = record new_list {
  machines = (1, 0) ∷ (2, 1) ∷ [];
  next_object = 2;
  admin_vm_info_list = info_of 1 ∷ info_of 2 ∷ [];
  vm_list_viewers = 7 ∷ [];
  admin_vm_list_viewers = 8 ∷ [];
}

abbrev facts : VmFacts
facts = record {
  name = 118 ∷ [];
  active = true;
  connected = true;
  details = [];
  users = 3;
  screenshot = some (9 ∷ []);
}

-- The first object runs, the second does not.
abbrev answer_of : ℕ → Answer
answer_of zero = set_vm_info 1 facts
answer_of (suc o) = set_vm_info 2 (record facts { active = false })

-- The second machine answers first.
on_answers-refresh_example :
    (v' : VirtualMachinesList) × (on_answers answer_of
        ((2, 1) ∷ (1, 0) ∷ [])
        (update_virtual_machine_info_list two_machines)
      ≡ some v')
    × (v'.admin_vm_info_list ≡ admin_answers answer_of two_machines.machines)
    × (v'.vm_info_list ≡ vm_answers answer_of two_machines.machines)
    × (v'.pending_vm_info_requests ≡ 0)
    × (v'.sent
        ≡ []
          ++ deliveries
              (7 ∷ [])
              (8 ∷ [])
              (list_and_thumbnails v')
              (admin_vm_list (admin_answers answer_of two_machines.machines) ∷ []))
on_answers-refresh_example =
    on_answers-refresh answer_of ((2, 1) ∷ (1, 0) ∷ []) two_machines refl (λ e. absurd (cc))
      (Permᴰ.swap refl refl)
