-- ===== src/Machines/Restart.antt =====
-- CollabVmServer.hpp: the machines that a server finds in the table when it starts.
use collab_vm_server.Base.{
  ℕ, suc, ◌<◌, ◌≡◌, refl, sym, ap, ◌∙◌, true, false, Option, none, some, List, [], ◌∷◌, ◌++◌,
  append_assoc, length, length-replicate, replicate, ◌==◌, ==_refl, ◌>>=◌, arith,
}
use collab_vm_server.Message.{Text}
use collab_vm_server.Config.{Setting, cleared}
use collab_vm_server.Machines.{
  Row, ends, get_vm_count, Loading, make_machine, read_vm_settings, load_machines,
}
use collab_vm_server.Machines.Rows.{
  rows_of_machine, read_vm_settings-append, pending, made, at_start, make_machine-pending,
  read_vm_settings-next, read_vm_settings-first,
}

-- Machines with all their settings, of which there are `n`, in the order of their ids.
abbrev pub Whole : ℕ → List (ℕ × List Setting) → Type 0
Whole n [] = Unit {0}
Whole n ((id, l) ∷ []) = length l ≡ n
Whole n ((id, l) ∷ (id', l') ∷ ms) = (length l ≡ n) × (id < id') × Whole n ((id', l') ∷ ms)

Whole-length :
    (n id : ℕ) (l : List Setting) (ms : List (ℕ × List Setting))
    → Whole n ((id, l) ∷ ms)
    → length l ≡ n
Whole-length n id l [] w = w
Whole-length n id l (m ∷ ms) w = w.0

module _ (default : ℕ → Text) (write : Setting → Text) (read : Text → Setting)
    (read-write : (s : Setting) → read (write s) ≡ s) where
  abbrev pub rows_of_machines : List (ℕ × List Setting) → List Row
  rows_of_machines [] = []
  rows_of_machines ((id, l) ∷ ms) =
      rows_of_machine default write read read-write id l ++ rows_of_machines ms

  get_vm_count-machine :
      (id : ℕ) (s : Setting) (l : List Setting) (rows : List Row)
      → ends id rows ≡ true
      → get_vm_count (rows_of_machine default write read read-write id (s ∷ l) ++ rows)
        ≡ suc (get_vm_count rows)
  get_vm_count-machine id s [] rows h = rw h (omega arith)
  get_vm_count-machine id s (t ∷ l) rows h =
      rw (==_refl id) (omega (arith, get_vm_count-machine id t l rows h))

  pub get_vm_count-rows_of_machines :
      (n : ℕ) (ms : List (ℕ × List Setting))
      → Whole (suc n) ms
      → get_vm_count (rows_of_machines ms) ≡ length ms
  get_vm_count-rows_of_machines n [] w = refl
  get_vm_count-rows_of_machines n ((id, []) ∷ []) w = absurd (omega (arith, w))
  get_vm_count-rows_of_machines n ((id, s ∷ l) ∷ []) w = get_vm_count-machine id s l [] refl
  get_vm_count-rows_of_machines n ((id, []) ∷ (id', l') ∷ ms) w = absurd (omega (arith, w.0))
  get_vm_count-rows_of_machines n ((id, l) ∷ (id', []) ∷ ms) w =
      absurd (omega (arith, Whole-length (suc n) id' [] ms w.2))
  get_vm_count-rows_of_machines n ((id, s ∷ l) ∷ (id', s' ∷ l') ∷ ms) w =
      let other : (id' == id) ≡ false = ground (arith, w.1) in
      get_vm_count-machine id s l (rows_of_machines ((id', s' ∷ l') ∷ ms)) (rw other refl)
      ∙ ap suc (get_vm_count-rows_of_machines n ((id', s' ∷ l') ∷ ms) w.2)

  -- The end of the constructor.
  abbrev finish : Loading → Option (List (ℕ × List Setting))
  finish v = elim v.previous_vm_id [
    | none ↦ some v.machines
    | some p ↦ make_machine v >>= λ v'. some v'.machines
  ]

  load_rest :
      (n p : ℕ) (lp : List Setting) (ms : List (ℕ × List Setting)) (v : Loading)
      → Whole (suc n) ((p, lp) ∷ ms)
      → v.infos_left ≡ suc (length ms)
      → (read_vm_settings default read
            (rows_of_machines ms)
            (pending default write read read-write p lp v)
          >>= λ u. finish u)
        ≡ some (v.machines ++ (p, lp) ∷ ms)
  load_rest n p lp [] v w left =
      rw (make_machine-pending default write read read-write p lp v (omega (arith, left))) refl
  load_rest n p lp ((id, []) ∷ ms) v w left =
      absurd (omega (arith, Whole-length (suc n) id [] ms w.2))
  load_rest n p lp ((id, s ∷ l) ∷ ms) v w left =
      let other : (p == id) ≡ false = ground (arith, w.1) in
      let next =
        read_vm_settings-next default write read read-write p id lp s l v other
          (omega (arith, left)) (w.0 ∙ sym (Whole-length (suc n) id (s ∷ l) ms w.2)) in
      ap (λ (x : Option Loading). x >>= λ u. finish u)
        (read_vm_settings-append default write read read-write
          (rows_of_machine default write read read-write id (s ∷ l)) (rows_of_machines ms)
          (pending default write read read-write p lp v)
          (pending default write read read-write id (s ∷ l)
            (made default write read read-write p lp v))
          next)
      ∙ load_rest n id (s ∷ l) ms (made default write read read-write p lp v) w.2
          (omega (arith, left))
      ∙ ap some (append_assoc v.machines ((p, lp) ∷ []) ((id, s ∷ l) ∷ ms))

  -- When the table holds machines with all their settings, in the order of their ids, a server that starts makes
  -- exactly these machines, in that order, each with its settings: no write leaves the list of the
  -- settings and the list of all machines has an element for each.
  pub load_machines-rows :
      (n : ℕ) (ms : List (ℕ × List Setting))
      → Whole (suc n) ms
      → load_machines default read (suc n) (rows_of_machines ms) ≡ some ms
  unfolding load_machines
  load_machines-rows n [] w = refl
  load_machines-rows n ((id, []) ∷ ms) w = absurd (omega (arith, Whole-length (suc n) id [] ms w))
  load_machines-rows n ((id, s ∷ l) ∷ ms) w =
      let fields = replicate (suc n) (cleared default 0) in
      let count = get_vm_count-rows_of_machines n ((id, s ∷ l) ∷ ms) w in
      let left = get_vm_count (rows_of_machines ((id, s ∷ l) ∷ ms)) in
      let start = at_start default write read read-write fields left in
      ap (λ (x : Option Loading). x >>= λ u. finish u)
        (read_vm_settings-append default write read read-write
          (rows_of_machine default write read read-write id (s ∷ l)) (rows_of_machines ms) start
          (pending default write read read-write id (s ∷ l) start)
          (read_vm_settings-first default write read read-write id fields s l left (
            length-replicate (suc n) (cleared default 0)
            ∙ sym (Whole-length (suc n) id (s ∷ l) ms w))))
      ∙ load_rest n id (s ∷ l) ms start w count
