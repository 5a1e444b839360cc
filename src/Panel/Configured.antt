-- ===== src/Panel/Configured.antt =====
-- CollabVmServer.hpp: an administrator changes the settings of the server (SERVER_CONFIG_MODIFICATIONS).
use collab_vm_server.Base.{
  ℕ, zero, suc, ◌<◌, ◌≡◌, refl, sym, ap, ◌∙◌, some, List, [], ◌∷◌, map, length, length-replicate,
  get_elem?, arith,
}
use collab_vm_server.Message.{Text}
use collab_vm_server.Config.{
  Setting, ServerSettings, pick, cleared, init_settings, save_server_settings,
  update_server_settings,
}
use collab_vm_server.Config.Updates.{InOrder, update_list-map}
use collab_vm_server.Panel.{
  Panel, server_config, set_captcha_settings, control, respond_excluding, modify_server_config,
}
use collab_vm_server.Panel.Flags.{PanelInv, respond_excluding-PanelInv}

length-map : (f : Setting → Setting) (l : List Setting) → length (map f l) ≡ length l
length-map f [] = refl
length-map f (x ∷ l) = ap suc (length-map f l)

get_elem?-lt : (l : List Setting) (i : ℕ) → i < length l → (x : Setting) × (get_elem? l i ≡ some x)
get_elem?-lt [] i h = absurd (omega (arith, h))
get_elem?-lt (x ∷ l) zero h = (x, refl)
get_elem?-lt (x ∷ l) (suc i) h = get_elem?-lt l i (omega arith)

module _ (default : ℕ → Text) (write : Setting → Text) (n captcha : ℕ) where
  update-InOrder :
      (updates : List Setting) (k : ServerSettings)
      → InOrder 0 k.settings
      → length k.settings ≡ n
      → (k' : ServerSettings) × (update_server_settings default write n updates k ≡ some k')
        × (InOrder 0 k'.settings × (length k'.settings ≡ n))
  unfolding update_server_settings
  update-InOrder updates k o e =
      let (q, o') =
        update_list-map updates k.settings (init_settings default n) o
          (length-replicate n (cleared default 0) ∙ sym e) in
      (
        record {
          settings = map (pick updates) k.settings;
          rows = save_server_settings default write updates k.rows;
        },
        rw q refl,
        (o', length-map (pick updates) k.settings ∙ e),
      )

  -- The settings stay in order, and the one of the captcha is there.
  pub modify_server_config-PanelInv :
      (updates : List Setting) (c : ℕ) (s : Panel)
      → captcha < n
      → PanelInv n s
      → (t : Panel) × (modify_server_config default write n captcha updates c s ≡ some t)
        × PanelInv n t
  unfolding modify_server_config
  modify_server_config-PanelInv updates c s small i =
      let (k, q, o) = update-InOrder updates s.server_settings i.settings.0 i.settings.1 in
      let (x, at) = get_elem?-lt k.settings captcha (omega (arith, small, o.1)) in
      let s' = control (set_captcha_settings x) (record s { server_settings = k }) in
      (
        respond_excluding s'.vms.admin_vm_list_viewers c (server_config k.settings) s',
        rw (q, at) refl,
        respond_excluding-PanelInv s'.vms.admin_vm_list_viewers c (server_config k.settings) s'
            (record {
              settings = o;
              stored = i.stored;
              viewing_vms = i.viewing_vms;
              viewing_config = i.viewing_config;
            }),
      )
