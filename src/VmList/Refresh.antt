-- ===== src/VmList/Refresh.antt =====
-- CollabVmServer.hpp: the update of both lists once every machine has answered.
use collab_vm_server.Base.{
  ℕ, zero, suc, ◌-◌, ◌≡◌, ◌≢◌, refl, sym, ap, ◌∙◌, subst, Option, none, some, List, [], ◌∷◌, ◌++◌,
  length, ◌>>=◌, List-cases, inl, inr, arith,
}
use mathlib.Core.List.{Permᴰ}
use collab_vm_server.VmList.{Answer, admin_vm_list, VirtualMachinesList, list_and_thumbnails}
use collab_vm_server.VmList.Answers.{
  pending_admin_vm_infos, pending_vm_infos, refresh_lists, note_answer, on_vm_info, free_all,
  ask_all, announce_lists, update_virtual_machine_info_list,
}
use collab_vm_server.VmList.Announce.{deliveries, announce_lists-eq, refresh_lists-eq}
use collab_vm_server.VmList.Noted.{
  note_all, Answered, admin_answers, vm_answers, AllAnswered, note_all-AllAnswered, All-Perm,
  length-Perm, length-vm_answers-Perm, note_all-Noted, pending_admin_vm_infos-eq,
  pending_vm_infos-eq, length-admin_answers,
}

-- The answers in the order in which they arrive; `a` is what each object answers.
unfoldable pub on_answers :
    (ℕ → Answer) → List (ℕ × ℕ) → VirtualMachinesList → Option VirtualMachinesList
on_answers a [] v = some v
on_answers a ((id, o) ∷ ms) v = on_vm_info o id (a o) v >>= λ v'. on_answers a ms v'

on_vm_info-last :
    (o id : ℕ) (x : Answer) (v : VirtualMachinesList)
    → v.pending_vm_info_requests ≡ 1
    → on_vm_info o id x v ≡ refresh_lists (note_answer o id x v)
unfolding on_vm_info
on_vm_info-last o id x v h =
    let none_left : v.pending_vm_info_requests - 1 ≡ 0 = omega arith in
    ap
      (λ k. elim k as (λ r. Option VirtualMachinesList) [
        | zero ↦ refresh_lists (note_answer o id x v)
        | suc n ↦ some (note_answer o id x v)
      ])
      none_left

on_vm_info-earlier :
    (o id : ℕ) (x : Answer) (v : VirtualMachinesList) (n : ℕ)
    → v.pending_vm_info_requests ≡ suc (suc n)
    → on_vm_info o id x v ≡ some (note_answer o id x v)
unfolding on_vm_info
on_vm_info-earlier o id x v n h =
    let some_left : v.pending_vm_info_requests - 1 ≡ suc n = omega arith in
    ap
      (λ k. elim k as (λ r. Option VirtualMachinesList) [
        | zero ↦ refresh_lists (note_answer o id x v)
        | suc n ↦ some (note_answer o id x v)
      ])
      some_left

>>=-some : {A : Type 0} (m : Option A) → (m >>= λ a. some a) ≡ m
>>=-some none = refl
>>=-some (some a) = refl

on_answers-eq :
    (a : ℕ → Answer) (id o : ℕ) (ms : List (ℕ × ℕ)) (v : VirtualMachinesList)
    → v.pending_vm_info_requests ≡ suc (length ms)
    → on_answers a ((id, o) ∷ ms) v ≡ refresh_lists (note_all a ((id, o) ∷ ms) v)
unfolding on_answers
on_answers-eq a id o [] v h =
    ap (λ r. r >>= λ v'. some v') (on_vm_info-last o id (a o) v h)
    ∙ >>=-some (refresh_lists (note_answer o id (a o) v))
on_answers-eq a id o ((id', o') ∷ ms) v h =
    ap (λ r. r >>= λ v'. on_answers a ((id', o') ∷ ms) v')
      (on_vm_info-earlier o id (a o) v (length ms) h)
    ∙ on_answers-eq a id' o' ms (note_answer o id (a o) v) (omega arith)

-- The state that has asked all machines.
answers-refresh :
    (a : ℕ → Answer) (id o : ℕ) (ms : List (ℕ × ℕ)) (s : VirtualMachinesList)
    → s.pending_vm_info_requests ≡ length s.machines
    → s.pending_vm_info_updates ≡ 0
    → Permᴰ ((id, o) ∷ ms) s.machines
    → (v : VirtualMachinesList) × (on_answers a ((id, o) ∷ ms) s ≡ some v)
      × (v.admin_vm_info_list ≡ admin_answers a s.machines)
      × (v.vm_info_list ≡ vm_answers a s.machines)
      × (v.pending_vm_info_requests ≡ 0)
      × (v.sent
          ≡ s.sent
            ++ deliveries s.vm_list_viewers s.admin_vm_list_viewers
                (list_and_thumbnails v)
                (admin_vm_list (admin_answers a s.machines) ∷ []))
answers-refresh a id o ms s requests updates d =
    let order = (id, o) ∷ ms in
    let w = note_all a order s in
    let (e1, e2, e3, e4, e5, e6) = note_all-Noted a order s in
    let all : AllAnswered a w s.machines =
      All-Perm (λ (i, p). Answered a p w) d (note_all-AllAnswered a order s) in
    let w' = record w {
      admin_vm_info_list = admin_answers a s.machines;
      vm_info_list = vm_answers a s.machines;
      objects = free_all w.machines w.objects;
    } in
    let refreshed : refresh_lists w ≡ some (announce_lists w') =
      refresh_lists-eq w (admin_answers a s.machines) (vm_answers a s.machines)
        (ap (pending_admin_vm_infos w.objects) e1 ∙ pending_admin_vm_infos-eq a w s.machines all)
        (length-admin_answers a s.machines ∙ ap length (sym e1))
        (ap (pending_vm_infos w.objects) e1 ∙ pending_vm_infos-eq a w s.machines all)
        (omega (arith, e6, updates, length-vm_answers-Perm a d)) in
    let v = record w' {
      sent =
          w.sent
          ++ deliveries w.vm_list_viewers w.admin_vm_list_viewers (list_and_thumbnails w')
              (admin_vm_list (admin_answers a s.machines) ∷ []);
    } in
    (
      v,
      on_answers-eq a id o ms s (requests ∙ sym (length-Perm d))
          ∙ refreshed
          ∙ ap some (announce_lists-eq w'),
      refl,
      refl,
      omega (arith, e5, requests, length-Perm d),
      ap
            (λ l.
              l
              ++ deliveries w.vm_list_viewers w.admin_vm_list_viewers (list_and_thumbnails v)
                  (admin_vm_list (admin_answers a s.machines) ∷ []))
            e4
          ∙ ap
              (λ l.
                s.sent
                ++ deliveries l w.admin_vm_list_viewers (list_and_thumbnails v)
                    (admin_vm_list (admin_answers a s.machines) ∷ []))
              e2
          ∙ ap
              (λ l.
                s.sent
                ++ deliveries s.vm_list_viewers l (list_and_thumbnails v)
                    (admin_vm_list (admin_answers a s.machines) ∷ []))
              e3,
    )

-- An update that starts when none is under way, of at least one machine: whatever the machines answer and
-- in whatever order, no step faults; at the end both lists hold the answers in the order of the map, no
-- request is pending, and each viewer has been sent the new public list with the thumbnails and each
-- viewing administrator the new list of all machines.
pub on_answers-refresh :
    (a : ℕ → Answer) (order : List (ℕ × ℕ)) (v : VirtualMachinesList)
    → v.pending_vm_info_requests ≡ 0
    → v.machines ≢ []
    → Permᴰ order v.machines
    → (v' : VirtualMachinesList) × (on_answers a order (update_virtual_machine_info_list v)
        ≡ some v')
      × (v'.admin_vm_info_list ≡ admin_answers a v.machines)
      × (v'.vm_info_list ≡ vm_answers a v.machines)
      × (v'.pending_vm_info_requests ≡ 0)
      × (v'.sent
          ≡ v.sent
            ++ deliveries v.vm_list_viewers v.admin_vm_list_viewers
                (list_and_thumbnails v')
                (admin_vm_list (admin_answers a v.machines) ∷ []))
unfolding update_virtual_machine_info_list
on_answers-refresh a order v idle more d = elim (List-cases order) [
  | inl e ↦ absurd (not_empty (sym (length-Perm d) ∙ ap length e))
  | inr ((id, o), ms, e) ↦
      rw (idle, e)
        (answers-refresh a id o ms
          (record v {
            pending_vm_info_requests = length v.machines;
            pending_vm_info_updates = 0;
            calls = v.calls ++ ask_all v.machines;
          })
          refl refl (subst (λ l. Permᴰ l v.machines) e d))
]
  where
    not_empty : length v.machines ≡ 0 → ⊥
    not_empty l = elim (List-cases v.machines) [
      | inl k ↦ more k
      | inr (m, ms, k) ↦ absurd (omega (arith, l, ap length k))
    ]
