-- ===== src/Machines/Examples.antt =====
-- CollabVmServer.hpp, AdminVirtualMachine.hpp and Database/Database.cpp: the theorems on the settings of
-- machines at machines with two settings.
use collab_vm_server.Base.{ℕ, ◌≡◌, refl, some, List, [], ◌∷◌, get_elem?, arith}
use collab_vm_server.Message.{Text}
use collab_vm_server.Config.{Setting}
use collab_vm_server.Machines.{Row, create_vm, load_machines, get_initial_settings}
use collab_vm_server.Machines.Restart.{rows_of_machines}
use collab_vm_server.Machines.Merge.{get_initial_settings-get}
use collab_vm_server.Machines.Created.{create_vm-load_machines}

abbrev no_text : ℕ → Text
no_text n = []

abbrev write : Setting → Text
write s = s.which ∷ s.value

abbrev read : Text → Setting
read [] = record { which = 0; value = [] }
read (w ∷ v) = record { which = w; value = v }

read-write : (s : Setting) → read (write s) ≡ s
read-write s = refl

abbrev set_to : ℕ → ℕ → Setting
set_to n v = record { which = n; value = v ∷ [] }

abbrev old_machines : List (ℕ × List Setting)
old_machines = (1, set_to 0 5 ∷ set_to 1 6 ∷ []) ∷ (4, set_to 0 7 ∷ set_to 1 8 ∷ []) ∷ []

abbrev new_settings : List Setting
new_settings = set_to 0 3 ∷ set_to 1 2 ∷ []

create_vm-load_machines_example :
    (rows : List Row) × (create_vm write 5 new_settings
        (rows_of_machines no_text write read read-write old_machines)
      ≡ some rows)
    × (load_machines no_text read 2 rows
        ≡ some (
            (1, set_to 0 5 ∷ set_to 1 6 ∷ [])
            ∷ (4, set_to 0 7 ∷ set_to 1 8 ∷ [])
            ∷ (5, new_settings)
            ∷ []))
create_vm-load_machines_example =
    create_vm-load_machines no_text write read read-write 1 5 new_settings old_machines
      (refl, omega arith, refl) (omega arith, (omega arith, tt)) (refl, (refl, tt)) refl
      (omega arith)

get_initial_settings-get_example :
    get_elem? (get_initial_settings no_text 4 (set_to 1 6 ∷ set_to 3 7 ∷ [])) 2
    ≡ some (record { which = 2; value = [] })
get_initial_settings-get_example =
    get_initial_settings-get no_text 4 2 (set_to 1 6 ∷ set_to 3 7 ∷ [])
      (omega arith, (omega arith, tt)) (omega arith, (omega arith, tt)) (omega arith)
