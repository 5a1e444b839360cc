-- ===== src/Panel/Flags.antt =====
-- CollabVmServer.hpp: the clients that view a list, and what all handlers keep.
use collab_vm_server.Base.{
  subst, length, ℕ, ◌≡◌, refl, sym, ap, ◌∙◌, Bool, true, false, List, [], ◌∷◌, ◌==◌, ==_refl,
  update, Bool-cases, Option-cases, inl, inr, arith,
}
use collab_vm_server.VmList.{
  find_machine, add_vm_list_viewer, remove_vm_list_viewer, remove_admin_vm_list_viewer,
}
use collab_vm_server.Panel.{
  Panel, SocketFlags, leave_server_config, leave_vm_list, request_vm_list, control_vms,
  respond_excluding, Response, Control, control, respond,
}
use collab_vm_server.Config.{ServerSettings}
use collab_vm_server.Config.Updates.{InOrder}
use collab_vm_server.Panel.Stored.{Stored, SameViewers, Stored-same}
use collab_vm_server.Panel.Viewers.{count, once, Views, Views-append, Views-erase, Views-same}

pub record PanelInv (n : ℕ) (s : Panel) : Type 0 where
  -- The settings of the server stand at their numbers, all `n` of them.
  pub settings : InOrder 0 s.server_settings.settings × (length s.server_settings.settings ≡ n)
  -- The list of all machines holds each machine once, and every machine is stored.
  pub stored : Stored s.vms s.vm_config
  -- A socket that views a list is among the viewers, once.
  pub viewing_vms : Views (λ c. (s.sockets c).is_viewing_vm_list) s.vms.vm_list_viewers
  pub viewing_config :
      Views (λ c. (s.sockets c).is_viewing_server_config) s.vms.admin_vm_list_viewers

-- As much of the state as the invariant looks at.
pub same-PanelInv :
    {n : ℕ} (s t : Panel)
    → PanelInv n s
    → Stored t.vms t.vm_config
    → t.sockets ≡ s.sockets
    → t.server_settings ≡ s.server_settings
    → SameViewers s.vms t.vms
    → PanelInv n t
same-PanelInv {n} s t i stored e k (p, q) = record {
  settings =
      subst (λ (x : ServerSettings). InOrder 0 x.settings × (length x.settings ≡ n)) (sym k)
        i.settings;
  stored = stored;
  viewing_vms =
      λ d. ap (count d) p ∙ i.viewing_vms d ∙ ap (λ f. once (f d).is_viewing_vm_list) (sym e);
  viewing_config = λ d.
      ap (count d) q ∙ i.viewing_config d ∙ ap (λ f. once (f d).is_viewing_server_config) (sym e);
}

abbrev pub views_vms : SocketFlags → Bool
views_vms k = k.is_viewing_vm_list

abbrev pub views_config : SocketFlags → Bool
views_config k = k.is_viewing_server_config

-- The flags of one socket changed.
abbrev pub flagged : ℕ → SocketFlags → Panel → ℕ → SocketFlags
flagged c k s = update s.sockets c k

-- A flag that stays.
pub flag-same :
    (c : ℕ) (s : Panel) (flag : SocketFlags → Bool) (k : SocketFlags)
    → flag k ≡ flag (s.sockets c)
    → (d : ℕ) → flag (flagged c k s d) ≡ flag (s.sockets d)
flag-same c s flag k e d = elim (Bool-cases (d == c)) [
  | inl here ↦ let same : c ≡ d = ground arith in rw here (e ∙ ap (λ x. flag (s.sockets x)) same)
  | inr other ↦ rw other refl
]

pub respond_excluding-PanelInv :
    {n : ℕ} (viewers : List ℕ) (c : ℕ) (r : Response) (s : Panel)
    → PanelInv n s
    → PanelInv n (respond_excluding viewers c r s)
respond_excluding-PanelInv [] c r s i = i
respond_excluding-PanelInv (w ∷ viewers) c r s i = elim (Bool-cases (w == c)) [
  | inl self ↦ rw self (respond_excluding-PanelInv viewers c r s i)
  | inr other ↦ rw other (
      respond_excluding-PanelInv viewers c r (respond w r s)
        (same-PanelInv s (respond w r s) i i.stored refl refl (refl, refl)))
]

pub control_vms-PanelInv :
    {n : ℕ} (k : ℕ → Control) (ids : List ℕ) (s : Panel)
    → PanelInv n s
    → PanelInv n (control_vms k ids s)
control_vms-PanelInv k [] s i = i
control_vms-PanelInv k (id ∷ ids) s i = elim (Option-cases (find_machine id s.vms.machines)) [
  | inl e ↦ rw (e, control_vms) i
  | inr (o, e) ↦
      rw (e, control_vms)
        (control_vms-PanelInv k ids (control (k o) s)
          (same-PanelInv s (control (k o) s) i i.stored refl refl (refl, refl)))
]

-- The handlers that add a socket to the viewers of a list, and that take it out.
pub request_vm_list-PanelInv :
    {n : ℕ} (c : ℕ) (s : Panel) → PanelInv n s → PanelInv n (request_vm_list c s)
unfolding request_vm_list add_vm_list_viewer
request_vm_list-PanelInv c s i = elim (Bool-cases (s.sockets c).is_viewing_vm_list) [
  | inl h ↦ rw h i
  | inr h ↦
      let k = record (s.sockets c) { is_viewing_vm_list = true } in
      rw h (record {
        settings = i.settings;
        stored = Stored-same s.vms (add_vm_list_viewer c s.vms) s.vm_config refl refl i.stored;
        viewing_vms =
            Views-append c (λ d. views_vms (s.sockets d)) (λ d. views_vms (flagged c k s d))
              s.vms.vm_list_viewers i.viewing_vms h (rw (==_refl c) refl) (λ d o. rw o refl);
        viewing_config =
            Views-same (λ d. views_config (s.sockets d)) (λ d. views_config (flagged c k s d))
              s.vms.admin_vm_list_viewers i.viewing_config (flag-same c s views_config k refl);
      })
]

pub leave_vm_list-PanelInv :
    {n : ℕ} (c : ℕ) (s : Panel) → PanelInv n s → PanelInv n (leave_vm_list c s)
unfolding leave_vm_list remove_vm_list_viewer
leave_vm_list-PanelInv c s i = elim (Bool-cases (s.sockets c).is_viewing_vm_list) [
  | inr h ↦ rw h i
  | inl h ↦
      let k = record (s.sockets c) { is_viewing_vm_list = false } in
      rw h (record {
        settings = i.settings;
        stored = Stored-same s.vms (remove_vm_list_viewer c s.vms) s.vm_config refl refl i.stored;
        viewing_vms =
            Views-erase c (λ d. views_vms (s.sockets d)) (λ d. views_vms (flagged c k s d))
              s.vms.vm_list_viewers i.viewing_vms h (rw (==_refl c) refl) (λ d o. rw o refl);
        viewing_config =
            Views-same (λ d. views_config (s.sockets d)) (λ d. views_config (flagged c k s d))
              s.vms.admin_vm_list_viewers i.viewing_config (flag-same c s views_config k refl);
      })
]

pub leave_server_config-PanelInv :
    {n : ℕ} (c : ℕ) (s : Panel) → PanelInv n s → PanelInv n (leave_server_config c s)
unfolding leave_server_config remove_admin_vm_list_viewer
leave_server_config-PanelInv c s i = elim (Bool-cases (s.sockets c).is_viewing_server_config) [
  | inr h ↦ rw h i
  | inl h ↦
      let k = record (s.sockets c) { is_viewing_server_config = false } in
      rw h (record {
        settings = i.settings;
        stored =
            Stored-same s.vms (remove_admin_vm_list_viewer c s.vms) s.vm_config refl refl i.stored;
        viewing_vms =
            Views-same (λ d. views_vms (s.sockets d)) (λ d. views_vms (flagged c k s d))
              s.vms.vm_list_viewers i.viewing_vms (flag-same c s views_vms k refl);
        viewing_config =
            Views-erase c (λ d. views_config (s.sockets d)) (λ d. views_config (flagged c k s d))
              s.vms.admin_vm_list_viewers i.viewing_config h (rw (==_refl c) refl)
              (λ d o. rw o refl);
      })
]
