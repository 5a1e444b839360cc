-- ===== src/VmList/Deletion.antt =====
-- CollabVmServer.hpp: the machines and the list of all machines hold the same ids.
use collab_vm_server.Base.{
  ℕ, suc, ◌+◌, ◌-◌, ◌≡◌, if◌then◌else◌, ◌≢◌, ◌↔◌, refl, sym, ap, ◌∙◌, subst, Bool, true, false,
  none, some, List, [], ◌∷◌, ◌++◌, length, ◌==◌, ltb, Option-cases, inl, inr, arith, index_of,
  erase, Distinct, Distinct-erase, Distinct-append_absent, update,
}
use collab_vm_server.VmList.{
  AdminVmInfo, VmFacts, set_admin_vm_info, stop_and_clear, new_admin_vm, VirtualMachinesList,
  find_machine, erase_machine, add_admin_virtual_machine, remove_admin_virtual_machine,
}
use collab_vm_server.VmList.Resizable.{remove_copy_if, remove_first}
use collab_vm_server.VmList.Ids.{
  Listed, erase_machine-ids, find_machine-erase_machine, find_machine-index_of,
  index_of-find_machine, info_ids, info_ids-append, length-erase, length-info_ids, machine_ids,
  machine_ids-append, remove_copy_if-ids, same_without,
}

-- The removal fills the new list exactly.
remove_first-eq :
    (id : ℕ) (is : List AdminVmInfo)
    → Distinct (info_ids is)
    → index_of id (info_ids is) ≢ none
    → remove_first (λ i. i.id == id) is ≡ some (remove_copy_if (λ i. i.id == id) is)
remove_first-eq id is d found =
    let kept = remove_copy_if (λ i. i.id == id) is in
    let count : suc (length kept) ≡ length is =
      ap suc (sym (length-info_ids kept) ∙ ap length (remove_copy_if-ids id is d))
      ∙ length-erase id (info_ids is) found
      ∙ length-info_ids is in
    let positive : ltb 0 (length is) ≡ true = ground arith in
    let exact : (length kept == length is - 1) ≡ true = ground arith in rw (positive, exact) refl

-- The state without a machine that was there.
abbrev pub removed : ℕ → ℕ → VirtualMachinesList → VirtualMachinesList
removed id o v = record v {
  calls = v.calls ++ stop_and_clear o ∷ [];
  machines = erase_machine id v.machines;
  admin_vm_info_list = remove_copy_if (λ i. i.id == id) v.admin_vm_info_list;
}

info_ids-Distinct : (v : VirtualMachinesList) → Listed v → Distinct (info_ids v.admin_vm_info_list)
info_ids-Distinct v listed = subst Distinct (sym listed.same) listed.distinct

pub remove_admin_virtual_machine-eq :
    (id o : ℕ) (v : VirtualMachinesList)
    → Listed v
    → find_machine id v.machines ≡ some o
    → remove_admin_virtual_machine id v ≡ some (true, removed id o v)
unfolding remove_admin_virtual_machine
remove_admin_virtual_machine-eq id o v listed e =
    rw
      (
        e,
        remove_admin_virtual_machine,
        remove_first-eq id v.admin_vm_info_list (info_ids-Distinct v listed) (λ q.
            absurd
              (cc (find_machine-index_of id v.machines (ap (index_of id) (sym listed.same) ∙ q)))),
      )
      refl

pub remove_admin_virtual_machine_absent :
    (id : ℕ) (v : VirtualMachinesList)
    → find_machine id v.machines ≡ none
    → remove_admin_virtual_machine id v ≡ some (false, v)
unfolding remove_admin_virtual_machine
remove_admin_virtual_machine_absent id v e = rw (e, remove_admin_virtual_machine) refl

pub removed-Listed : (id o : ℕ) (v : VirtualMachinesList) → Listed v → Listed (removed id o v)
removed-Listed id o v listed =
    let ids = erase_machine-ids id v.machines listed.distinct in
    record {
      same =
          remove_copy_if-ids id v.admin_vm_info_list (info_ids-Distinct v listed)
          ∙ ap (erase id) listed.same
          ∙ sym ids;
      distinct =
          subst Distinct (sym ids) (Distinct-erase id (machine_ids v.machines) listed.distinct);
    }

-- The deletion of a machine, in a state in which the list of all machines holds each machine once, does
-- not fault and tells whether the machine was there; afterwards the machine is not in the map, every
-- other machine is where it was, and the list still holds each machine once.
pub remove_admin_virtual_machine-Listed :
    (id j : ℕ) (v : VirtualMachinesList)
    → Listed v
    → (found : Bool) × (v' : VirtualMachinesList) × (remove_admin_virtual_machine id v
        ≡ some (found, v'))
      × ((found ≡ false) ↔ (find_machine id v.machines ≡ none))
      × Listed v'
      × (find_machine j v'.machines ≡ (if j == id then none else find_machine j v.machines))
remove_admin_virtual_machine-Listed id j v listed =
    elim (Option-cases (find_machine id v.machines)) [
      | inl e ↦ (
        false,
        v,
        remove_admin_virtual_machine_absent id v e,
        (λ x. e, λ x. refl),
        listed,
        same_without id j v.machines e,
      )
      | inr (o, e) ↦ (
        true,
        removed id o v,
        remove_admin_virtual_machine-eq id o v listed e,
        (λ x. absurd (cc), λ x. absurd (cc)),
        removed-Listed id o v listed,
        find_machine-erase_machine id j v.machines,
      )
    ]

-- The state with a new machine.
abbrev pub added : ℕ → VmFacts → VirtualMachinesList → VirtualMachinesList
added id s v = record v {
  admin_vm_info_list = v.admin_vm_info_list ++ set_admin_vm_info id s ∷ [];
  objects = update v.objects v.next_object new_admin_vm;
  next_object = v.next_object + 1;
  machines = v.machines ++ (id, v.next_object) ∷ [];
}

-- An id that is not taken: the assertion holds.
pub add_admin_virtual_machine-eq :
    (id : ℕ) (s : VmFacts) (v : VirtualMachinesList)
    → find_machine id v.machines ≡ none
    → add_admin_virtual_machine id s v ≡ some (added id s v)
unfolding add_admin_virtual_machine
add_admin_virtual_machine-eq id s v e = rw (e, add_admin_virtual_machine) refl

pub added-Listed :
    (id : ℕ) (s : VmFacts) (v : VirtualMachinesList)
    → Listed v
    → find_machine id v.machines ≡ none
    → Listed (added id s v)
added-Listed id s v listed e = record {
  same =
      info_ids-append v.admin_vm_info_list (set_admin_vm_info id s)
      ∙ ap (λ l. l ++ id ∷ []) listed.same
      ∙ sym (machine_ids-append id v.next_object v.machines);
  distinct = subst Distinct (sym (machine_ids-append id v.next_object v.machines)) (
      Distinct-append_absent id (machine_ids v.machines) listed.distinct
        (index_of-find_machine id v.machines e));
}
