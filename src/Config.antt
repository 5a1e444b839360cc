-- ===== src/Config.antt =====
-- Database/Database.h, Database/Database.cpp and CollabVmServer.hpp: the settings of the server, in memory
-- (ServerSettingsList) and in the table ServerConfig. A setting is the member of the union that is set
-- and its value. The schema's default values are an argument, and so are Cap'n Proto's
-- copyToUnchecked and readMessageUnchecked. The table is the list of its rows in the order of their ids.
-- `none` is an exception or a failed assertion.
pub mod Updates
pub mod Stored
pub mod Loaded
pub mod Restart
mod Examples
use collab_vm_server.Base.{
  ℕ, zero, suc, ◌+◌, ◌-◌, ◌%◌, ◌^◌, Bool, true, false, not, Option, none, some, List, [], ◌∷◌, ◌++◌,
  length, set, replicate, ltb, ◌==◌, if◌then◌else◌, ◌>>=◌,
}
use collab_vm_server.Message.{Text}

pub record Setting : Type 0 where
  pub which : ℕ
  pub value : Text

abbrev pub find_setting : ℕ → List Setting → Option Setting
find_setting t [] = none
find_setting t (u ∷ us) = if u.which == t then some u else find_setting t us

-- The first update of the kind, or else the old setting.
abbrev pub pick : List Setting → Setting → Setting
pick updates o = elim (find_setting o.which updates) [ none ↦ o | some u ↦ u ]

abbrev pub update_each : List Setting → List Setting → List Setting → Option (List Setting)
update_each updates [] new_list = some new_list
update_each updates (o ∷ old_list) new_list =
    let rest = update_each updates old_list (set new_list o.which (pick updates o)) in
    if ltb o.which (length new_list) then rest else none

unfoldable pub update_list : List Setting → List Setting → List Setting → Option (List Setting)
update_list old_list new_list updates =
    if length old_list == length new_list then update_each updates old_list new_list else none

-- The rows of ServerConfig: the id and the blob.
abbrev pub Rows : Type 0
Rows = List (ℕ × Text)

abbrev pub update_row : ℕ → Text → Rows → Rows
update_row id b [] = []
update_row id b ((i, x) ∷ rows) = (i, if i == id then b else x) ∷ update_row id b rows

-- `none` if the id is there.
abbrev pub insert_row : ℕ → Text → Rows → Option Rows
insert_row id b [] = some ((id, b) ∷ [])
insert_row id b ((i, x) ∷ rows) =
    let later = insert_row id b rows >>= λ rest. some ((i, x) ∷ rest) in
    if i == id then none else if ltb id i then some ((id, b) ∷ (i, x) ∷ rows) else later

pub record ServerSettings : Type 0 where
  pub settings : List Setting
  pub rows : Rows

module _ (default : ℕ → Text) where
  abbrev pub cleared : ℕ → Setting
  cleared id = record { which = id; value = default id }

  abbrev pub init_settings : ℕ → List Setting
  init_settings fields_count = replicate fields_count (cleared 0)

  module _ (write : Setting → Text) where
    abbrev pub save_server_settings : List Setting → Rows → Rows
    save_server_settings [] rows = rows
    save_server_settings (u ∷ updates) rows =
        save_server_settings updates (update_row (u.which % 2 ^ 8) (write u) rows)

    unfoldable pub update_server_settings :
        ℕ → List Setting → ServerSettings → Option ServerSettings
    unfolding update_list
    update_server_settings fields_count updates s =
        update_list s.settings (init_settings fields_count) updates >>= λ l.
        some (record { settings = l; rows = save_server_settings updates s.rows })

    -- The missing settings get their defaults.
    abbrev pub fill_missing : ℕ → ℕ → List Setting → Rows → Option (List Setting × Rows)
    fill_missing zero setting_id l rows = some (l, rows)
    fill_missing (suc left) setting_id l rows =
        insert_row setting_id (write (cleared setting_id)) rows >>= λ rows'.
        fill_missing left (suc setting_id) (set l setting_id (cleared setting_id)) rows'

    module _ (read : Text → Setting) where
      -- The rows that are read, the counter, the list, and the table, to which rows may be added: a
      -- row inserted while the query runs has an id that its cursor has passed.
      abbrev pub load_rows : Rows → ℕ → List Setting → Rows → Option (ℕ × List Setting × Rows)
      load_rows [] setting_id l rows = some (setting_id, l, rows)
      load_rows ((id, b) ∷ selected) setting_id l rows =
          let wrong = insert_row setting_id (write (cleared id)) rows >>= λ rows'.
          load_rows selected (suc setting_id) (set l id (cleared id)) rows' in
          let right = load_rows selected (suc setting_id) (set l id (read b)) rows in
          if not (ltb id (length l))
          then none
          else if not ((read b).which == setting_id)
          then wrong
          else if not ((read b).which == id)
          then none
          else right

      unfoldable pub load_server_settings : ℕ → List Setting → Rows → Option (List Setting × Rows)
      load_server_settings fields_count l rows =
          load_rows rows 0 l rows >>= λ (setting_id, l', rows').
          fill_missing (fields_count - setting_id) setting_id l' rows'

      -- The constructor of ServerSettingsList.
      unfoldable pub new_server_settings : ℕ → Rows → Option ServerSettings
      unfolding load_server_settings
      new_server_settings fields_count rows =
          load_server_settings fields_count (init_settings fields_count) rows >>= λ (l, rows').
          some (record { settings = l; rows = rows' })

      -- `SetReCaptchaSettings`, with the captcha's settings.
      unfoldable pub set_re_captcha_settings : ℕ → Setting → Rows → Option Rows
      unfolding load_server_settings
      set_re_captcha_settings fields_count captcha rows =
          load_server_settings fields_count (init_settings fields_count) rows >>= λ (l, rows').
          some (save_server_settings (captcha ∷ []) rows')
