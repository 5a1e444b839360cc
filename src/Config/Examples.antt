-- ===== src/Config/Examples.antt =====
-- CollabVmServer.hpp and Database/Database.h: the theorems on settings at three settings.
use collab_vm_server.Base.{ℕ, ◌≡◌, refl, some, List, [], ◌∷◌, arith}
use collab_vm_server.Message.{Text}
use collab_vm_server.Config.{Setting, ServerSettings, update_server_settings, new_server_settings}
use collab_vm_server.Config.Restart.{Stored, update_server_settings-Stored}

abbrev no_text : ℕ → Text
no_text n = []

abbrev write : Setting → Text
write s = s.which ∷ s.value

abbrev read : Text → Setting
read [] = record { which = 0; value = [] }
read (w ∷ v) = record { which = w; value = v }

read-write : (s : Setting) → read (write s) ≡ s
read-write s = refl

abbrev set_to : ℕ → ℕ → Setting
set_to n v = record { which = n; value = v ∷ [] }

abbrev three : List Setting
three = set_to 0 5 ∷ set_to 1 6 ∷ set_to 2 7 ∷ []

abbrev stored : ServerSettings
stored = record {
  settings = three;
  rows = (0, 0 ∷ 5 ∷ []) ∷ (1, 1 ∷ 6 ∷ []) ∷ (2, 2 ∷ 7 ∷ []) ∷ [];
}

stored_well : Stored no_text write read read-write 3 stored
stored_well = record { in_order = (refl, (refl, (refl, tt))); complete = refl; rows = refl }

update_server_settings-Stored_example :
    (t : ServerSettings) × (update_server_settings no_text write 3
        (set_to 2 9 ∷ set_to 0 4 ∷ [])
        stored
      ≡ some t)
    × (t.settings ≡ set_to 0 4 ∷ set_to 1 6 ∷ set_to 2 9 ∷ [])
    × Stored no_text write read read-write 3 t
    × (new_server_settings no_text write read 3 t.rows ≡ some t)
update_server_settings-Stored_example =
    update_server_settings-Stored no_text write read read-write 3 (set_to 2 9 ∷ set_to 0 4 ∷ [])
      stored stored_well (refl, (refl, tt)) (omega arith, (omega arith, tt))
