-- ===== src/Panel/Stored.antt =====
-- CollabVmServer.hpp, Database.h: the ids of the machines and those that are stored.
use collab_vm_server.Base.{
  ℕ, ◌+◌, ◌^◌, ◌≡◌, ◌<◌, refl, sym, ap, ◌∙◌, subst, Bool, true, false, none, some, List, [], ◌∷◌,
  ◌++◌, ◌==◌, if◌then◌else◌, Option-cases, inl, inr, arith, Distinct,
}
use collab_vm_server.VmList.{
  VmFacts, VirtualMachinesList, find_machine, add_admin_virtual_machine,
  remove_admin_virtual_machine,
}
use collab_vm_server.VmList.Ids.{
  Listed, machine_ids, info_ids, find_machine-append, find_machine-erase_machine,
}
use collab_vm_server.VmList.Deletion.{
  removed, remove_admin_virtual_machine-eq, remove_admin_virtual_machine_absent, removed-Listed,
  added, add_admin_virtual_machine-eq, added-Listed,
}
use collab_vm_server.Panel.{max_id, get_new_vm_id, delete_rows}

abbrev pub is_stored : ℕ → List ℕ → Bool
is_stored id [] = false
is_stored id (i ∷ ids) = let rest = is_stored id ids in if i == id then true else rest

-- The new id is above all others.
is_stored-above : (n : ℕ) (ids : List ℕ) → max_id ids < n → is_stored n ids ≡ false
is_stored-above n [] h = refl
is_stored-above n (id ∷ ids) h = ground (arith, is_stored-above n ids)

is_stored-new_vm_id :
    (ids : List ℕ) → max_id ids + 1 < 2 ^ 32 → is_stored (get_new_vm_id ids) ids ≡ false
is_stored-new_vm_id [] h = refl
is_stored-new_vm_id (id ∷ ids) h =
    is_stored-above (get_new_vm_id (id ∷ ids)) (id ∷ ids) (omega (arith, h))

is_stored-delete_rows :
    (id j : ℕ) (ids : List ℕ)
    → is_stored j (delete_rows id ids) ≡ (if j == id then false else is_stored j ids)
is_stored-delete_rows id j [] = ground arith
is_stored-delete_rows id j (i ∷ ids) = ground (arith, is_stored-delete_rows id j ids)

is_stored-append :
    (id j : ℕ) (ids : List ℕ)
    → is_stored j (ids ++ id ∷ []) ≡ (if is_stored j ids then true else id == j)
is_stored-append id j [] = ground arith
is_stored-append id j (i ∷ ids) = ground (arith, is_stored-append id j ids)

-- The machines and the ids that are stored, without the viewers.
abbrev pub Stored : VirtualMachinesList → List ℕ → Type 0
Stored v ids =
    (Listed v × ((id : ℕ) → is_stored id ids ≡ false → find_machine id v.machines ≡ none))

-- The viewers of both lists are those of the flags.
abbrev pub SameViewers : VirtualMachinesList → VirtualMachinesList → Type 0
SameViewers v w =
    ((w.vm_list_viewers ≡ v.vm_list_viewers) × (w.admin_vm_list_viewers ≡ v.admin_vm_list_viewers))

pub create-Stored :
    (facts : VmFacts) (v : VirtualMachinesList) (ids : List ℕ)
    → max_id ids + 1 < 2 ^ 32
    → Stored v ids
    → (w : VirtualMachinesList) × (add_admin_virtual_machine (get_new_vm_id ids) facts v ≡ some w)
      × SameViewers v w
      × Stored w (ids ++ get_new_vm_id ids ∷ [])
create-Stored facts v ids small (listed, stored) =
    let id = get_new_vm_id ids in
    let fresh : find_machine id v.machines ≡ none = stored id (is_stored-new_vm_id ids small) in
    (
      added id facts v,
      add_admin_virtual_machine-eq id facts v fresh,
      (refl, refl),
      (
        added-Listed id facts v listed fresh,
        λ j h.
            let (old, other) =
              neither (is_stored j ids) (id == j) (sym (is_stored-append id j ids) ∙ h) in
            find_machine-append id v.next_object j v.machines (stored j old) other,
      ),
    )
  where
    neither : (a b : Bool) → (if a then true else b) ≡ false → (a ≡ false) × (b ≡ false)
    neither true b h = absurd (cc)
    neither false b h = (refl, h)

pub delete-Stored :
    (id : ℕ) (v : VirtualMachinesList) (ids : List ℕ)
    → Stored v ids
    → (found : Bool) × (w : VirtualMachinesList) × (remove_admin_virtual_machine id v
        ≡ some (found, w))
      × SameViewers v w
      × Stored w (if found then delete_rows id ids else ids)
delete-Stored id v ids (listed, stored) = elim (Option-cases (find_machine id v.machines)) [
  | inl e ↦ (false, v, remove_admin_virtual_machine_absent id v e, (refl, refl), (listed, stored))
  | inr (o, e) ↦ (
    true,
    removed id o v,
    remove_admin_virtual_machine-eq id o v listed e,
    (refl, refl),
    (
      removed-Listed id o v listed,
      λ j h.
          find_machine-erase_machine id j v.machines
          ∙ without (j == id) j (sym (is_stored-delete_rows id j ids) ∙ h),
    ),
  )
]
  where
    without :
        (b : Bool) (j : ℕ)
        → (if b then false else is_stored j ids) ≡ false
        → (if b then none else find_machine j v.machines) ≡ none
    without true j h = refl
    without false j h = stored j h

pub Stored-same :
    (v w : VirtualMachinesList) (ids : List ℕ)
    → w.machines ≡ v.machines
    → w.admin_vm_info_list ≡ v.admin_vm_info_list
    → Stored v ids
    → Stored w ids
Stored-same v w ids p q (listed, stored) = (
  record {
    same = ap info_ids q ∙ listed.same ∙ ap machine_ids (sym p);
    distinct = subst (λ ms. Distinct (machine_ids ms)) (sym p) listed.distinct;
  },
  λ id h. ap (find_machine id) p ∙ stored id h,
)
