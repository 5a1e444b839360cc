-- ===== src/Panel/Examples.antt =====
-- CollabVmServer.hpp: an administrator and a guest.
use collab_vm_server.Base.{◌⊎◌, ℕ, ◌≡◌, ◌==◌, refl, false, none, some, [], ◌∷◌, arith}
use collab_vm_server.Message.{Text}
use collab_vm_server.Config.{Setting}
use collab_vm_server.VmList.{VmFacts, new_list}
use collab_vm_server.Panel.{vm_list_request, create_vm, delete_vm, Panel, on_message}
use collab_vm_server.Panel.Guard.{SameServer, on_message-SameServer}
use collab_vm_server.Panel.Flags.{PanelInv}
use collab_vm_server.Panel.Invariant.{receives, panel_step, panel_step-PanelInv}

-- Socket 0 is an administrator.
abbrev empty_panel : Panel
empty_panel = record {
  vms = new_list;
  sockets = λ c. record {
    is_admin = c == 0;
    is_viewing_vm_list = false;
    is_viewing_server_config = false;
  };
  server_settings = record {
    settings = record { which = 0; value = [] } ∷ record { which = 1; value = [] } ∷ [];
    rows = [];
  };
  vm_config = 4 ∷ [];
  responses = [];
  controls = [];
}

empty_panel-PanelInv : PanelInv 2 empty_panel
empty_panel-PanelInv = record {
  settings = ((refl, (refl, tt)), refl);
  stored = (record { same = refl; distinct = tt }, λ id h. refl);
  viewing_vms = λ d. refl;
  viewing_config = λ d. refl;
}

abbrev facts : VmFacts
facts = record {
  name = [];
  active = false;
  connected = false;
  details = [];
  users = 0;
  screenshot = none;
}

abbrev blank : ℕ → Text
blank id = []

abbrev blob : Setting → Text
blob k = k.value

on_message-SameServer_example :
    (t : Panel) × (on_message blank blob 2 0 (delete_vm 4) 1 empty_panel ≡ some t)
    × SameServer empty_panel t
    × ((delete_vm 4 ≡ vm_list_request) ⊎ (t.vms.sent ≡ empty_panel.vms.sent))
on_message-SameServer_example =
    on_message-SameServer blank blob 2 0 (delete_vm 4) 1 empty_panel refl

panel_step-PanelInv_example :
    (s' : Panel) × (panel_step blank blob 2 0 (receives (create_vm facts) 0) empty_panel ≡ some s')
    × PanelInv 2 s'
panel_step-PanelInv_example =
    panel_step-PanelInv blank blob 2 0 (receives (create_vm facts) 0) empty_panel (omega arith)
      (omega arith) empty_panel-PanelInv
