-- ===== src/VmList/Ids.antt =====
-- CollabVmServer.hpp: the ids of the machines, in the map and in the list of all machines.
use collab_vm_server.Base.{
  ℕ, suc, ◌≡◌, if◌then◌else◌, ◌≢◌, refl, ap, ◌∙◌, subst, true, false, none, List, [], ◌∷◌, ◌++◌,
  length, ◌==◌, Bool-cases, inl, inr, arith, index_of, erase, Distinct, erase_absent, map_option,
}
use collab_vm_server.VmList.{AdminVmInfo, VirtualMachinesList, find_machine, erase_machine}
use collab_vm_server.VmList.Resizable.{remove_copy_if}

abbrev pub machine_ids : List (ℕ × ℕ) → List ℕ
machine_ids [] = []
machine_ids ((id, o) ∷ ms) = id ∷ machine_ids ms

abbrev pub info_ids : List AdminVmInfo → List ℕ
info_ids [] = []
info_ids (i ∷ is) = i.id ∷ info_ids is

-- Every machine is in the list of all machines once, and nothing else is.
pub record Listed (v : VirtualMachinesList) : Type 0 where
  pub same : info_ids v.admin_vm_info_list ≡ machine_ids v.machines
  pub distinct : Distinct (machine_ids v.machines)

pub index_of-find_machine :
    (id : ℕ) (ms : List (ℕ × ℕ)) → find_machine id ms ≡ none → index_of id (machine_ids ms) ≡ none
index_of-find_machine id [] h = refl
index_of-find_machine id ((i, o) ∷ ms) h = ground (arith, index_of-find_machine id ms)

pub find_machine-index_of :
    (id : ℕ) (ms : List (ℕ × ℕ)) → index_of id (machine_ids ms) ≡ none → find_machine id ms ≡ none
find_machine-index_of id [] h = refl
find_machine-index_of id ((i, o) ∷ ms) h = ground (arith, find_machine-index_of id ms)

pub ==_flip : (a b : ℕ) → (a == b) ≡ true → (b == a) ≡ true
==_flip a b h = ground arith

pub ==_flip_false : (a b : ℕ) → (a == b) ≡ false → (b == a) ≡ false
==_flip_false a b h = ground arith

-- Without repetitions, to erase all is to erase the first.
pub erase_machine-ids :
    (id : ℕ) (ms : List (ℕ × ℕ))
    → Distinct (machine_ids ms)
    → machine_ids (erase_machine id ms) ≡ erase id (machine_ids ms)
erase_machine-ids id [] d = refl
erase_machine-ids id ((i, o) ∷ ms) (a, d) = elim (Bool-cases (id == i)) [
  | inl here ↦
      let e : i ≡ id = ground arith in
      rw (here, ==_flip id i here)
        (erase_machine-ids id ms d
          ∙ erase_absent id (machine_ids ms) (subst (λ k. index_of k (machine_ids ms) ≡ none) e a))
  | inr other ↦ rw (other, ==_flip_false id i other) (ap (λ l. i ∷ l) (erase_machine-ids id ms d))
]

pub remove_copy_if-ids :
    (id : ℕ) (is : List AdminVmInfo)
    → Distinct (info_ids is)
    → info_ids (remove_copy_if (λ i. i.id == id) is) ≡ erase id (info_ids is)
remove_copy_if-ids id [] d = refl
remove_copy_if-ids id (i ∷ is) (a, d) = elim (Bool-cases (id == i.id)) [
  | inl here ↦
      let e : i.id ≡ id = ground arith in
      rw (here, ==_flip id i.id here)
        (remove_copy_if-ids id is d
          ∙ erase_absent id (info_ids is) (subst (λ k. index_of k (info_ids is) ≡ none) e a))
  | inr other ↦
      rw (other, ==_flip_false id i.id other) (ap (λ l. i.id ∷ l) (remove_copy_if-ids id is d))
]

pub find_machine-erase_machine :
    (id j : ℕ) (ms : List (ℕ × ℕ))
    → find_machine j (erase_machine id ms) ≡ (if j == id then none else find_machine j ms)
find_machine-erase_machine id j [] = ground arith
find_machine-erase_machine id j ((i, o) ∷ ms) = ground (arith, find_machine-erase_machine id j ms)

pub same_without :
    (id j : ℕ) (ms : List (ℕ × ℕ))
    → find_machine id ms ≡ none
    → find_machine j ms ≡ (if j == id then none else find_machine j ms)
same_without id j ms h = elim (Bool-cases (j == id)) [
  | inl same ↦ let e : id ≡ j = ground arith in rw same (subst (λ k. find_machine k ms ≡ none) e h)
  | inr other ↦ rw other refl
]

pub length-erase :
    (u : ℕ) (xs : List ℕ) → index_of u xs ≢ none → suc (length (erase u xs)) ≡ length xs
length-erase u [] h = absurd (h refl)
length-erase u (x ∷ xs) h = elim (Bool-cases (u == x)) [
  | inl here ↦ rw here refl
  | inr other ↦ rw other (ap suc (length-erase u xs (λ e. h (rw other (ap (map_option suc) e)))))
]

pub info_ids-append :
    (is : List AdminVmInfo) (i : AdminVmInfo) → info_ids (is ++ i ∷ []) ≡ info_ids is ++ i.id ∷ []
info_ids-append [] i = refl
info_ids-append (j ∷ is) i = ap (λ l. j.id ∷ l) (info_ids-append is i)

pub machine_ids-append :
    (id o : ℕ) (ms : List (ℕ × ℕ)) → machine_ids (ms ++ (id, o) ∷ []) ≡ machine_ids ms ++ id ∷ []
machine_ids-append id o [] = refl
machine_ids-append id o ((j, p) ∷ ms) = ap (λ l. j ∷ l) (machine_ids-append id o ms)

pub find_machine-append :
    (id o j : ℕ) (ms : List (ℕ × ℕ))
    → find_machine j ms ≡ none
    → (id == j) ≡ false
    → find_machine j (ms ++ (id, o) ∷ []) ≡ none
find_machine-append id o j [] h k = rw k refl
find_machine-append id o j ((i, p) ∷ ms) h k = ground (arith, find_machine-append id o j ms)

pub length-info_ids : (is : List AdminVmInfo) → length (info_ids is) ≡ length is
length-info_ids [] = refl
length-info_ids (i ∷ is) = ap suc (length-info_ids is)
