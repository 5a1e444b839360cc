-- ===== src/Machines.antt =====
-- Database/Database.cpp, Database/Database.h, CollabVmServer.hpp and AdminVirtualMachine.hpp: the settings
-- of the machines, in the table VmConfig and as the server finds them when it starts (the constructor
-- of VirtualMachinesList and GetInitialSettings). The table is the list of its rows in the order of its
-- key, and the blobs and the schema's defaults are as in Config. `none` is an exception, or a write past
-- the end of a list.
pub mod Merge
pub mod Rows
pub mod Restart
pub mod Created
mod Examples
use collab_vm_server.Base.{
  ℕ, zero, suc, ◌+◌, ◌-◌, ◌%◌, ◌^◌, Bool, true, false, not, ◌&&◌, ◌||◌, Option, none, some, List,
  [], ◌∷◌, ◌++◌, length, set, take, replicate, ltb, ◌==◌, if◌then◌else◌, ◌>>=◌,
}
use collab_vm_server.Message.{Text}
use collab_vm_server.Config.{Setting, cleared}

pub record Row : Type 0 where
  pub vm_id : ℕ
  pub setting_id : ℕ
  pub setting : Text

abbrev pub same_key : Row → Row → Bool
same_key r s = r.vm_id == s.vm_id && r.setting_id == s.setting_id

abbrev pub before : Row → Row → Bool
before r s = ltb r.vm_id s.vm_id || (r.vm_id == s.vm_id && ltb r.setting_id s.setting_id)

-- `none` if the key is there.
abbrev pub insert_row : Row → List Row → Option (List Row)
insert_row r [] = some (r ∷ [])
insert_row r (s ∷ rows) =
    let later = insert_row r rows >>= λ rest. some (s ∷ rest) in
    if same_key r s then none else if before r s then some (r ∷ s ∷ rows) else later

module _ (write : Setting → Text) where
  abbrev pub row_of : ℕ → Setting → Row
  row_of vm_id s = record { vm_id = vm_id; setting_id = s.which % 2 ^ 8; setting = write s }

  abbrev pub create_vm : ℕ → List Setting → List Row → Option (List Row)
  create_vm vm_id [] rows = some rows
  create_vm vm_id (s ∷ settings_list) rows =
      insert_row (row_of vm_id s) rows >>= λ rows'. create_vm vm_id settings_list rows'

-- The last row of a machine.
abbrev pub ends : ℕ → List Row → Bool
ends id [] = true
ends id (s ∷ rows) = not (s.vm_id == id)

-- `GetVmCount`: the distinct ids of the machines, whose rows stand together.
abbrev pub get_vm_count : List Row → ℕ
get_vm_count [] = 0
get_vm_count (r ∷ rows) = get_vm_count rows + (if ends r.vm_id rows then 1 else 0)

-- The local variables of the constructor, the machines that have been made, and the elements of the list
-- of all machines that are left.
pub record Loading : Type 0 where
  pub previous_vm_id : Option ℕ
  pub vm_setting_index : ℕ
  pub vm_settings : List Setting
  pub machines : List (ℕ × List Setting)
  pub infos_left : ℕ

-- The inner `create_vm`. The assignment of `VmSettingsList` does nothing, so the list stays truncated.
abbrev pub make_machine : Loading → Option Loading
make_machine v = elim v.previous_vm_id [
  | none ↦ none
  | some vm_id ↦
      if v.infos_left == 0
      then none
      else some (record v {
        vm_setting_index = 0;
        vm_settings = take v.vm_setting_index v.vm_settings;
        machines = v.machines ++ (vm_id, take v.vm_setting_index v.vm_settings) ∷ [];
        infos_left = v.infos_left - 1;
      })
]

abbrev pub add_setting : ℕ → Setting → Loading → Option Loading
add_setting vm_id s v =
    if ltb v.vm_setting_index (length v.vm_settings)
    then some (record v {
      previous_vm_id = some vm_id;
      vm_setting_index = v.vm_setting_index + 1;
      vm_settings = set v.vm_settings v.vm_setting_index s;
    })
    else none

-- The callback of ReadVmSettings.
unfoldable pub on_row : ℕ → Setting → Loading → Option Loading
on_row vm_id s v =
    let another : Bool = elim v.previous_vm_id [ none ↦ false | some p ↦ not (p == vm_id) ] in
    if another then (make_machine v >>= λ v'. add_setting vm_id s v') else add_setting vm_id s v

abbrev pub skip_below : ℕ → List Setting → List Setting
skip_below i [] = []
skip_below i (s ∷ l) = let rest = skip_below i l in if ltb s.which i then rest else s ∷ l

module _ (default : ℕ → Text) (read : Text → Setting) where
  abbrev pub read_vm_settings : List Row → Loading → Option Loading
  read_vm_settings [] v = some v
  read_vm_settings (r ∷ rows) v =
      on_row r.vm_id (read r.setting) v >>= λ v'. read_vm_settings rows v'

  unfoldable pub load_machines : ℕ → List Row → Option (List (ℕ × List Setting))
  unfolding on_row
  load_machines fields_count rows =
      read_vm_settings rows (record {
        previous_vm_id = none;
        vm_setting_index = 0;
        vm_settings = replicate fields_count (cleared default 0);
        machines = [];
        infos_left = get_vm_count rows;
      })
      >>= λ v. elim v.previous_vm_id [
        | none ↦ some v.machines
        | some p ↦ make_machine v >>= λ v'. some v'.machines
      ]

module _ (default : ℕ → Text) where
  abbrev pub head_or_default : ℕ → List Setting → Setting
  head_or_default i [] = cleared default i
  head_or_default i (s ∷ l) = if s.which == i then s else cleared default i

  -- The settings from number `i` on, of which `left` are wanted.
  abbrev pub merge_settings : ℕ → ℕ → List Setting → List Setting
  merge_settings zero i l = []
  merge_settings (suc left) i l =
      let rest = skip_below i l in head_or_default i rest ∷ merge_settings left (suc i) rest

  unfoldable pub get_initial_settings : ℕ → List Setting → List Setting
  get_initial_settings fields_count l =
      if length l == fields_count then l else merge_settings fields_count 0 l
