-- ===== src/Machines/Created.antt =====
-- Database/Database.cpp and CollabVmServer.hpp: a machine that is created and found again after a restart.
use collab_vm_server.Base.{
  ℕ, suc, ◌+◌, ◌%◌, ◌^◌, ◌<◌, ◌≤◌, ◌≡◌, refl, sym, ap, subst, ◌∙◌, false, some, List, [], ◌∷◌, ◌++◌,
  append_assoc, append-nil, length, arith, All,
}
use collab_vm_server.Message.{Text}
use collab_vm_server.Config.{Setting}
use collab_vm_server.Config.Updates.{InOrder}
use collab_vm_server.Machines.{Row, row_of, same_key, before, insert_row, create_vm, load_machines}
use collab_vm_server.Machines.Rows.{rows_of_machine}
use collab_vm_server.Machines.Restart.{Whole, rows_of_machines, load_machines-rows}

-- The row stands before those of the machine from the number `i` on.
abbrev Earlier : ℕ → ℕ → Row → Type 0
Earlier id i q = (q.vm_id ≤ id) × (q.vm_id ≡ id → q.setting_id < i)

not_same_key : (r q : Row) → Earlier r.vm_id r.setting_id q → same_key r q ≡ false
not_same_key r q (a, b) = ground arith

not_before : (r q : Row) → Earlier r.vm_id r.setting_id q → before r q ≡ false
not_before r q (a, b) = ground arith

insert_row-last :
    (r : Row) (rows : List Row)
    → All (Earlier r.vm_id r.setting_id) rows
    → insert_row r rows ≡ some (rows ++ r ∷ [])
insert_row-last r [] b = refl
insert_row-last r (q ∷ rows) b =
    rw (not_same_key r q b.0, not_before r q b.0) (rw (insert_row-last r rows b.1) refl)

Earlier-append :
    (id i : ℕ) (rows : List Row) (r : Row)
    → r.vm_id ≡ id
    → r.setting_id ≡ i
    → All (Earlier id i) rows
    → All (Earlier id (suc i)) (rows ++ r ∷ [])
Earlier-append id i [] r e f b = ((omega arith, λ x. omega arith), tt)
Earlier-append id i (q ∷ rows) r e f b =
    ((b.0.0, λ (x : q.vm_id ≡ id). omega (arith, b.0.1 x)), Earlier-append id i rows r e f b.1)

Earlier-machine :
    (id i : ℕ) (rows : List Row) → All (λ (q : Row). q.vm_id < id) rows → All (Earlier id i) rows
Earlier-machine id i [] b = tt
Earlier-machine id i (q ∷ rows) b = (
  (omega (arith, b.0), λ (x : q.vm_id ≡ id). absurd (omega (arith, b.0, x))),
  Earlier-machine id i rows b.1,
)

All-append :
    (n : ℕ) (xs ys : List Row)
    → All (λ (q : Row). q.vm_id < n) xs
    → All (λ (q : Row). q.vm_id < n) ys
    → All (λ (q : Row). q.vm_id < n) (xs ++ ys)
All-append n [] ys a b = b
All-append n (x ∷ xs) ys a b = (a.0, All-append n xs ys a.1 b)

Whole-append :
    (n : ℕ) (ms : List (ℕ × List Setting)) (id : ℕ) (l : List Setting)
    → Whole n ms
    → All (λ (m : ℕ × List Setting). m.0 < id) ms
    → length l ≡ n
    → Whole n (ms ++ (id, l) ∷ [])
Whole-append n [] id l w b e = e
Whole-append n ((p, k) ∷ []) id l w b e = (w, b.0, e)
Whole-append n ((p, k) ∷ (q, j) ∷ ms) id l w b e =
    (w.0, w.1, Whole-append n ((q, j) ∷ ms) id l w.2 b.1 e)

module _ (default : ℕ → Text) (write : Setting → Text) (read : Text → Setting)
    (read-write : (s : Setting) → read (write s) ≡ s) where
  create_vm-last :
      (id i : ℕ) (l : List Setting) (rows : List Row)
      → InOrder i l
      → i + length l ≤ 2 ^ 8
      → All (Earlier id i) rows
      → create_vm write id l rows
        ≡ some (rows ++ rows_of_machine default write read read-write id l)
  create_vm-last id i [] rows h b a = ap some (sym (append-nil rows))
  create_vm-last id i (s ∷ l) rows h b a =
      let number : s.which % 2 ^ 8 ≡ i = omega (arith, h.0, b) in
      let r = row_of write id s in
      let earlier : All (Earlier r.vm_id r.setting_id) rows =
        subst (λ (k : ℕ). All (Earlier id k) rows) (sym number) a in
      rw (insert_row-last r rows earlier) (
        create_vm-last id (suc i) l (rows ++ r ∷ []) h.1 (omega (arith, b))
          (Earlier-append id i rows r refl number a)
        ∙ ap some (append_assoc rows (r ∷ []) (rows_of_machine default write read read-write id l)))

  rows_of_machine-below :
      (n id : ℕ) (l : List Setting)
      → id < n
      → All (λ (q : Row). q.vm_id < n) (rows_of_machine default write read read-write id l)
  rows_of_machine-below n id [] h = tt
  rows_of_machine-below n id (s ∷ l) h = (h, rows_of_machine-below n id l h)

  rows_of_machines-below :
      (n : ℕ) (ms : List (ℕ × List Setting))
      → All (λ (m : ℕ × List Setting). m.0 < n) ms
      → All (λ (q : Row). q.vm_id < n) (rows_of_machines default write read read-write ms)
  rows_of_machines-below n [] b = tt
  rows_of_machines-below n ((id, l) ∷ ms) b =
      All-append n (rows_of_machine default write read read-write id l)
        (rows_of_machines default write read read-write ms) (rows_of_machine-below n id l b.0)
        (rows_of_machines-below n ms b.1)

  rows_of_machines-append :
      (ms : List (ℕ × List Setting)) (id : ℕ) (l : List Setting)
      → rows_of_machines default write read read-write (ms ++ (id, l) ∷ [])
        ≡ rows_of_machines default write read read-write ms
          ++ rows_of_machine default write read read-write id l
  rows_of_machines-append [] id l = append-nil (rows_of_machine default write read read-write id l)
  rows_of_machines-append ((p, k) ∷ ms) id l =
      ap (λ (x : List Row). rows_of_machine default write read read-write p k ++ x)
        (rows_of_machines-append ms id l)
      ∙ sym (
          append_assoc (rows_of_machine default write read read-write p k)
            (rows_of_machines default write read read-write ms)
            (rows_of_machine default write read read-write id l))

  -- CreateVm with an id above all others and all settings, each at its number, of which there are at most
  -- 256, on a table of machines with all their settings: no row is refused, and a server that starts
  -- with the table makes the machines that were there, in their order, and then the new one with its
  -- settings.
  pub create_vm-load_machines :
      (n id : ℕ) (l : List Setting) (ms : List (ℕ × List Setting))
      → Whole (suc n) ms
      → All (λ (m : ℕ × List Setting). m.0 < id) ms
      → InOrder 0 l
      → length l ≡ suc n
      → suc n ≤ 2 ^ 8
      → (rows : List Row) × (create_vm write id l
            (rows_of_machines default write read read-write ms)
          ≡ some rows)
        × (load_machines default read (suc n) rows ≡ some (ms ++ (id, l) ∷ []))
  create_vm-load_machines n id l ms w b h e few =
      let rows = rows_of_machines default write read read-write ms in
      (
        rows ++ rows_of_machine default write read read-write id l,
        create_vm-last id 0 l rows h (omega (arith, e, few))
            (Earlier-machine id 0 rows (rows_of_machines-below id ms b)),
        ap (load_machines default read (suc n)) (sym (rows_of_machines-append ms id l))
            ∙ load_machines-rows default write read read-write n (ms ++ (id, l) ∷ [])
                (Whole-append (suc n) ms id l w b e),
      )
