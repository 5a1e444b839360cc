-- ===== src/Config/Restart.antt =====
-- CollabVmServer.hpp and Database/Database.cpp: what a restart of the server loads.
use collab_vm_server.Base.{
  ℕ, ◌+◌, ◌-◌, ◌^◌, ◌<◌, ◌≤◌, ◌≡◌, refl, sym, ap, ◌∙◌, some, List, ◌++◌, map, append-nil, length,
  length-replicate, take, arith, Distinct, All,
}
use collab_vm_server.Message.{Text}
use collab_vm_server.Config.{
  Setting, Rows, ServerSettings, pick, cleared, init_settings, save_server_settings,
  update_server_settings, new_server_settings,
}
use collab_vm_server.Config.Updates.{InOrder, update_list-map}
use collab_vm_server.Config.Stored.{
  overwrite_one, kinds, overwrite_all-map, overwrite_one-pick, map-ext, length-map,
}
use collab_vm_server.Config.Loaded.{
  rows_of, load_rows-rows_of, fill_missing-defaults, defaults, save-rows_of,
}

module _ (default : ℕ → Text) (write : Setting → Text) (read : Text → Setting)
    (read-write : (s : Setting) → read (write s) ≡ s) where
  abbrev rows_from : List Setting → Rows
  rows_from l = rows_of default write read read-write 0 l

  -- The server starts with a table that has the settings up to some number, each under its own id, as an
  -- earlier version with fewer settings has left it: the settings in memory are those of the table
  -- and the defaults of the missing ones, and the table then has all of them.
  pub new_server_settings-rows_of :
      (fields_count : ℕ) (l : List Setting)
      → InOrder 0 l
      → length l ≤ fields_count
      → let all =
          l ++ defaults default write read read-write (length l) (fields_count - length l) in
        new_server_settings default write read fields_count
          (rows_of default write read read-write 0 l)
        ≡ some (record { settings = all; rows = rows_of default write read read-write 0 all })
  unfolding new_server_settings
  new_server_settings-rows_of fields_count l h few =
      let fields = init_settings default fields_count in
      let n : length fields ≡ fields_count = length-replicate fields_count (cleared default 0) in
      let (rest, e, t, m) =
        load_rows-rows_of default write read read-write 0 l fields (rows_from l) h
          (omega (arith, few, n)) in
      let at : 0 + length l ≡ length l = omega arith in
      let loaded = e ∙ ap (λ (j : ℕ). some (j, rest, rows_from l)) at in
      let filled =
        fill_missing-defaults default write read read-write (fields_count - length l) l rest
          (m ∙ n ∙ omega (arith, few)) (ap (λ (j : ℕ). take j rest) (sym at) ∙ t) in
      rw loaded (rw filled refl)

  -- The settings in memory stand at their numbers, and the table has the same.
  pub record Stored (fields_count : ℕ) (s : ServerSettings) : Type 0 where
    pub in_order : InOrder 0 s.settings
    pub complete : length s.settings ≡ fields_count
    pub rows : s.rows ≡ rows_from s.settings

  -- UpdateServerSettings with updates of different kinds, none of a kind above 255: the settings are
  -- replaced by their updates, memory and table agree as they did before, and a server that starts
  -- with the table has the same settings and leaves the table as it is.
  pub update_server_settings-Stored :
      (fields_count : ℕ) (us : List Setting) (s : ServerSettings)
      → Stored fields_count s
      → Distinct (kinds us)
      → All (λ (u : Setting). u.which < 2 ^ 8) us
      → (t : ServerSettings) × (update_server_settings default write fields_count us s ≡ some t)
        × (t.settings ≡ map (pick us) s.settings)
        × Stored fields_count t
        × (new_server_settings default write read fields_count t.rows ≡ some t)
  unfolding update_server_settings
  update_server_settings-Stored fields_count us s i d b =
      let l = map (pick us) s.settings in
      let t : ServerSettings = record { settings = l; rows = rows_from l } in
      let fields = init_settings default fields_count in
      let (made, order) =
        update_list-map us s.settings fields i.in_order
          (length-replicate fields_count (cleared default 0) ∙ sym i.complete) in
      let saved : save_server_settings default write us s.rows ≡ rows_from l =
        ap (save_server_settings default write us) i.rows
        ∙ save-rows_of default write read read-write us s.settings i.in_order b
        ∙ ap rows_from (
            overwrite_all-map us s.settings
            ∙ map-ext (overwrite_one us) (pick us) s.settings (λ o. overwrite_one-pick us o d)) in
      let n : length l ≡ fields_count = length-map (pick us) s.settings ∙ i.complete in
      let gap : fields_count - length l ≡ 0 = omega (arith, n) in
      let none_missing : l
            ++ defaults default write read read-write (length l) (fields_count - length l)
          ≡ l =
        ap (λ (k : ℕ). l ++ defaults default write read read-write (length l) k) gap
        ∙ append-nil l in
      (
        t,
        rw made (rw saved refl),
        refl,
        record { in_order = order; complete = n; rows = refl },
        new_server_settings-rows_of fields_count l order (omega (arith, n))
            ∙ ap (λ (x : List Setting). some (record { settings = x; rows = rows_from x }))
                none_missing,
      )
