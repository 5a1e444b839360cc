-- ===== src/VmList/Announce.antt =====
-- CollabVmServer.hpp: the new lists and those who get them.
use collab_vm_server.Base.{
  ℕ, ◌-◌, ◌≡◌, refl, sym, ap, ◌∙◌, subst, true, some, List, [], ◌∷◌, ◌++◌, length, map,
  append_assoc, append-nil, arith, leb,
}
use collab_vm_server.VmList.{
  AdminVmInfo, VmInfo, ListMessage, admin_vm_list, VirtualMachinesList, send_all,
  broadcast_to_viewing_admins, list_and_thumbnails,
}
use collab_vm_server.VmList.Resizable.{fill}
use collab_vm_server.VmList.Answers.{
  pending_admin_vm_infos, pending_vm_infos, refresh_lists, blank_admin_vm_info, blank_vm_info,
  free_all, announce_lists,
}

send_all-eq :
    (ws : List ℕ) (ms : List ListMessage) (v : VirtualMachinesList)
    → send_all ws ms v ≡ record v { sent = v.sent ++ map (λ w. (w, ms)) ws }
send_all-eq [] ms v = ap (λ l. record v { sent = l }) (sym (append-nil v.sent))
send_all-eq (w ∷ ws) ms v =
    send_all-eq ws ms (record v { sent = v.sent ++ (w, ms) ∷ [] })
    ∙ ap (λ l. record v { sent = l }) (append_assoc v.sent ((w, ms) ∷ []) (map (λ u. (u, ms)) ws))

fill-full :
    {A : Type 0} (blank : A) (n : ℕ) (xs : List A) → length xs ≡ n → fill blank n xs ≡ some xs
unfolding fill
fill-full blank n xs h = fits blank n xs (subst (λ k. leb k n ≡ true) (sym h) (ground arith)) h
  where
    fits :
        {A : Type 0} (blank : A) (n : ℕ) (xs : List A)
        → leb (length xs) n ≡ true
        → length xs ≡ n
        → fill blank n xs ≡ some xs
    fits {A} blank n xs b h =
        let none_left : n - length xs ≡ 0 = omega arith in
        rw (b, none_left) (ap some (append-nil xs))

-- The messages that the last answer sends.
abbrev pub deliveries :
    List ℕ → List ℕ → List ListMessage → List ListMessage → List (ℕ × List ListMessage)
deliveries viewers admins ms admin_ms =
    map (λ w. (w, ms)) viewers ++ map (λ w. (w, admin_ms)) admins

pub announce_lists-eq :
    (v : VirtualMachinesList)
    → announce_lists v ≡ record v {
      sent =
          v.sent
          ++ deliveries v.vm_list_viewers v.admin_vm_list_viewers
              (list_and_thumbnails v)
              (admin_vm_list v.admin_vm_info_list ∷ []);
    }
announce_lists-eq v =
    ap broadcast_to_viewing_admins (send_all-eq v.vm_list_viewers (list_and_thumbnails v) v)
    ∙ send_all-eq v.admin_vm_list_viewers (admin_vm_list v.admin_vm_info_list ∷ [])
        (record v { sent = v.sent ++ map (λ w. (w, list_and_thumbnails v)) v.vm_list_viewers })
    ∙ ap (λ l. record v { sent = l })
        (append_assoc v.sent (map (λ w. (w, list_and_thumbnails v)) v.vm_list_viewers)
          (map (λ w. (w, admin_vm_list v.admin_vm_info_list ∷ [])) v.admin_vm_list_viewers))

pub refresh_lists-eq :
    (w : VirtualMachinesList) (admin_list : List AdminVmInfo) (list : List VmInfo)
    → pending_admin_vm_infos w.objects w.machines ≡ admin_list
    → length admin_list ≡ length w.machines
    → pending_vm_infos w.objects w.machines ≡ list
    → length list ≡ w.pending_vm_info_updates
    → refresh_lists w
      ≡ some (
          announce_lists (record w {
            admin_vm_info_list = admin_list;
            vm_info_list = list;
            objects = free_all w.machines w.objects;
          }))
unfolding refresh_lists
refresh_lists-eq w admin_list list p k q l =
    rw
      (
        p,
        fill-full blank_admin_vm_info (length w.machines) admin_list k,
        q,
        fill-full blank_vm_info w.pending_vm_info_updates list l,
      )
      refl
