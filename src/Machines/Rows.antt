-- ===== src/Machines/Rows.antt =====
-- CollabVmServer.hpp: the constructor of VirtualMachinesList on the rows of one machine.
use collab_vm_server.Base.{
  ℕ, suc, ◌+◌, ◌-◌, ◌<◌, ◌≤◌, ◌≡◌, refl, sym, ap, ◌∙◌, false, Option, none, some, List, [], ◌∷◌,
  ◌++◌, map, append_assoc, append-nil, length, length-set, set, take, lt→ltb, ◌==◌, ==_refl, ◌>>=◌,
  arith, >>=-eq-some,
}
use collab_vm_server.Message.{Text}
use collab_vm_server.Config.{Setting}
use collab_vm_server.Config.Updates.{take-set, take-all}
use collab_vm_server.Machines.{Row, row_of, Loading, make_machine, on_row, read_vm_settings}

module _ (default : ℕ → Text) (write : Setting → Text) (read : Text → Setting)
    (read-write : (s : Setting) → read (write s) ≡ s) where
  abbrev pub rows_of_machine : ℕ → List Setting → List Row
  rows_of_machine id l = map (row_of write id) l

  pub read_vm_settings-append :
      (xs ys : List Row) (v w : Loading)
      → read_vm_settings default read xs v ≡ some w
      → read_vm_settings default read (xs ++ ys) v ≡ read_vm_settings default read ys w
  read_vm_settings-append [] ys v w h =
      ap (λ (x : Option Loading). x >>= λ t. read_vm_settings default read ys t) h
  read_vm_settings-append (x ∷ xs) ys v w h =
      let (u, e, r) =
        >>=-eq-some (on_row x.vm_id (read x.setting) v) (λ t. read_vm_settings default read xs t)
          h in
      rw e (read_vm_settings-append xs ys u w r)

  -- A state of the constructor in which `i` settings of the machine have been read.
  abbrev pub reading : ℕ → ℕ → List Setting → Loading → Loading
  reading id i settings v = record v {
    previous_vm_id = some id;
    vm_setting_index = i;
    vm_settings = settings;
  }

  on_row-reading :
      (id i : ℕ) (s : Setting) (settings : List Setting) (v : Loading)
      → i < length settings
      → on_row id s (reading id i settings v) ≡ some (reading id (i + 1) (set settings i s) v)
  unfolding on_row
  on_row-reading id i s settings v h = rw (==_refl id, lt→ltb i (length settings) h) refl

  -- The other rows of a machine.
  read_vm_settings-reading :
      (id i : ℕ) (l settings : List Setting) (v : Loading)
      → i + length l ≤ length settings
      → (rest : List Setting) × (read_vm_settings default read
            (rows_of_machine id l)
            (reading id i settings v)
          ≡ some (reading id (i + length l) rest v))
        × (take (i + length l) rest ≡ take i settings ++ l)
        × (length rest ≡ length settings)
  read_vm_settings-reading id i [] settings v h =
      let at : i + 0 ≡ i = omega arith in
      (
        settings,
        ap (λ (n : ℕ). some (reading id n settings v)) (sym at),
        ap (λ (n : ℕ). take n settings) at ∙ sym (append-nil (take i settings)),
        refl,
      )
  read_vm_settings-reading id i (s ∷ l) settings v h =
      let below : i < length settings = omega (arith, h) in
      let (rest, e, t, n) =
        read_vm_settings-reading id (i + 1) l (set settings i s) v
          (omega (arith, h, length-set settings i s)) in
      let at : i + 1 + length l ≡ i + suc (length l) = omega arith in
      let one : i + 1 ≡ suc i = omega arith in
      (
        rest,
        rw (read-write s, on_row-reading id i s settings v below)
            (e ∙ ap (λ (k : ℕ). some (reading id k rest v)) at),
        ap (λ (k : ℕ). take k rest) (sym at)
            ∙ t
            ∙ ap (λ (k : ℕ). take k (set settings i s) ++ l) one
            ∙ ap (λ (x : List Setting). x ++ l) (take-set i settings s below)
            ∙ append_assoc (take i settings) (s ∷ []) l,
        n ∙ length-set settings i s,
      )

  take-whole : (n : ℕ) (l : List Setting) → n ≡ length l → take n l ≡ l
  take-whole n l e = rw e (take-all l)

  -- A state of the constructor between two machines: the last one is still to be made.
  abbrev pub pending : ℕ → List Setting → Loading → Loading
  pending id l v = reading id (length l) l v

  abbrev pub made : ℕ → List Setting → Loading → Loading
  made id l v = record v { machines = v.machines ++ (id, l) ∷ []; infos_left = v.infos_left - 1 }

  pub make_machine-pending :
      (id : ℕ) (l : List Setting) (v : Loading)
      → 0 < v.infos_left
      → make_machine (pending id l v) ≡ some (reading id 0 l (made id l v))
  make_machine-pending id l v h =
      let left : (v.infos_left == 0) ≡ false = ground arith in rw (left, take-all l) refl

  -- The rows of a machine after another one.
  pub read_vm_settings-next :
      (p id : ℕ) (lp : List Setting) (s : Setting) (l : List Setting) (v : Loading)
      → (p == id) ≡ false
      → 0 < v.infos_left
      → length lp ≡ suc (length l)
      → read_vm_settings default read (rows_of_machine id (s ∷ l)) (pending p lp v)
        ≡ some (pending id (s ∷ l) (made p lp v))
  unfolding on_row
  read_vm_settings-next p id lp s l v other left n =
      let w = made p lp v in
      let (rest, e, t, m) =
        read_vm_settings-reading id 1 l (set lp 0 s) w (omega (arith, n, length-set lp 0 s)) in
      let whole : rest ≡ s ∷ l =
        sym (take-whole (1 + length l) rest (omega (arith, m, n, length-set lp 0 s)))
        ∙ t
        ∙ ap (λ (x : List Setting). x ++ l) (take-set 0 lp s (omega (arith, n))) in
      let one : 1 + length l ≡ suc (length l) = omega arith in
      rw
        (
          read-write s,
          other,
          make_machine-pending p lp v left,
          lt→ltb 0 (length lp) (omega (arith, n)),
        )
        (e
          ∙ ap (λ (x : List Setting). some (reading id (1 + length l) x w)) whole
          ∙ ap (λ (k : ℕ). some (reading id k (s ∷ l) w)) one)

  abbrev pub at_start : List Setting → ℕ → Loading
  at_start fields left = record {
    previous_vm_id = none;
    vm_setting_index = 0;
    vm_settings = fields;
    machines = [];
    infos_left = left;
  }

  -- The rows of the first machine.
  pub read_vm_settings-first :
      (id : ℕ) (fields : List Setting) (s : Setting) (l : List Setting) (left : ℕ)
      → length fields ≡ suc (length l)
      → read_vm_settings default read (rows_of_machine id (s ∷ l)) (at_start fields left)
        ≡ some (pending id (s ∷ l) (at_start fields left))
  unfolding on_row
  read_vm_settings-first id fields s l left n =
      let w = at_start fields left in
      let (rest, e, t, m) =
        read_vm_settings-reading id 1 l (set fields 0 s) w
          (omega (arith, n, length-set fields 0 s)) in
      let whole : rest ≡ s ∷ l =
        sym (take-whole (1 + length l) rest (omega (arith, m, n, length-set fields 0 s)))
        ∙ t
        ∙ ap (λ (x : List Setting). x ++ l) (take-set 0 fields s (omega (arith, n))) in
      let one : 1 + length l ≡ suc (length l) = omega arith in
      rw (read-write s, lt→ltb 0 (length fields) (omega (arith, n)))
        (e
          ∙ ap (λ (x : List Setting). some (reading id (1 + length l) x w)) whole
          ∙ ap (λ (k : ℕ). some (reading id k (s ∷ l) w)) one)
