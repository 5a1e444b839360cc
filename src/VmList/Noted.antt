-- ===== src/VmList/Noted.antt =====
-- CollabVmServer.hpp: what the answers of the machines leave behind, in whatever order they come.
use collab_vm_server.Base.{
  ℕ, suc, ◌+◌, ◌-◌, ◌≡◌, refl, sym, ap, ◌∙◌, subst, some, List, [], ◌∷◌, length, ◌==◌, ==_refl, All,
  Bool-cases, Option-cases, inl, inr, arith,
}
use mathlib.Core.List.{Permᴰ}
use collab_vm_server.VmList.{AdminVmInfo, VmInfo, Answer, VirtualMachinesList}
use collab_vm_server.VmList.Resizable.{cons_option, option_size, length-cons_option}
use collab_vm_server.VmList.Answers.{pending_admin_vm_infos, pending_vm_infos, note_answer}

abbrev pub note_all : (ℕ → Answer) → List (ℕ × ℕ) → VirtualMachinesList → VirtualMachinesList
note_all a [] v = v
note_all a ((id, o) ∷ ms) v = note_all a ms (note_answer o id (a o) v)

-- The elements that the machines' answers are to give, in the order of the map.
abbrev pub admin_answers : (ℕ → Answer) → List (ℕ × ℕ) → List AdminVmInfo
admin_answers a [] = []
admin_answers a ((id, o) ∷ ms) = (a o).admin_vm_info ∷ admin_answers a ms

abbrev pub vm_answers : (ℕ → Answer) → List (ℕ × ℕ) → List VmInfo
vm_answers a [] = []
vm_answers a ((id, o) ∷ ms) = cons_option (a o).vm_info (vm_answers a ms)

-- The object has been given its answer.
abbrev pub Answered : (ℕ → Answer) → ℕ → VirtualMachinesList → Type 0
Answered a o v =
    (((v.objects o).pending_admin_vm_info ≡ some (a o).admin_vm_info)
      × ((v.objects o).pending_vm_info ≡ (a o).vm_info))

note_answer_self :
    (a : ℕ → Answer) (o id : ℕ) (v : VirtualMachinesList) → Answered a o (note_answer o id (a o) v)
note_answer_self a o id v = rw (==_refl o) (refl, refl)

note_answer-Answered :
    (a : ℕ → Answer) (o o' id : ℕ) (v : VirtualMachinesList)
    → Answered a o v
    → Answered a o (note_answer o' id (a o') v)
note_answer-Answered a o o' id v (p, q) = elim (Bool-cases (o == o')) [
  | inl same ↦
      let e : o' ≡ o = ground arith in
      subst (λ k. Answered a o (note_answer k id (a k) v)) (sym e) (note_answer_self a o id v)
  | inr other ↦ rw other (p, q)
]

note_all-Answered :
    (a : ℕ → Answer) (o : ℕ) (ms : List (ℕ × ℕ)) (v : VirtualMachinesList)
    → Answered a o v
    → Answered a o (note_all a ms v)
note_all-Answered a o [] v h = h
note_all-Answered a o ((id, o') ∷ ms) v h =
    note_all-Answered a o ms (note_answer o' id (a o') v) (note_answer-Answered a o o' id v h)

abbrev pub AllAnswered : (ℕ → Answer) → VirtualMachinesList → List (ℕ × ℕ) → Type 0
AllAnswered a v ms = All (λ (id, o). Answered a o v) ms

pub note_all-AllAnswered :
    (a : ℕ → Answer) (ms : List (ℕ × ℕ)) (v : VirtualMachinesList)
    → AllAnswered a (note_all a ms v) ms
note_all-AllAnswered a [] v = tt
note_all-AllAnswered a ((id, o) ∷ ms) v = (
  note_all-Answered a o ms (note_answer o id (a o) v) (note_answer_self a o id v),
  note_all-AllAnswered a ms (note_answer o id (a o) v),
)

pub All-Perm : {A : Type 0} (P : A → Type 0) {xs ys : List A} → Permᴰ xs ys → All P xs → All P ys
All-Perm P Permᴰ.nil h = h
All-Perm P (Permᴰ.cons e d) (h, hs) = (subst P e h, All-Perm P d hs)
All-Perm P (Permᴰ.swap e1 e2) (h1, (h2, hs)) = (subst P e2 h2, (subst P e1 h1, hs))
All-Perm P (Permᴰ.trans d1 d2) h = All-Perm P d2 (All-Perm P d1 h)

pub length-Perm : {A : Type 0} {xs ys : List A} → Permᴰ xs ys → length xs ≡ length ys
length-Perm Permᴰ.nil = refl
length-Perm (Permᴰ.cons e d) = ap suc (length-Perm d)
length-Perm (Permᴰ.swap e1 e2) = refl
length-Perm (Permᴰ.trans d1 d2) = length-Perm d1 ∙ length-Perm d2

pub length-vm_answers-Perm :
    (a : ℕ → Answer) {xs ys : List (ℕ × ℕ)}
    → Permᴰ xs ys
    → length (vm_answers a xs) ≡ length (vm_answers a ys)
length-vm_answers-Perm a Permᴰ.nil = refl
length-vm_answers-Perm a (Permᴰ.cons {a = m} {b = n} {l₁ = ms} {l₂ = ns} e d) =
    let same : option_size (a m.1).vm_info ≡ option_size (a n.1).vm_info =
      ap (λ k. option_size (a k.1).vm_info) e in
    omega (
      arith,
      same,
      length-cons_option (a m.1).vm_info (vm_answers a ms),
      length-cons_option (a n.1).vm_info (vm_answers a ns),
      length-vm_answers-Perm a d,
    )
length-vm_answers-Perm a (Permᴰ.swap {a = m} {b = n} {a' = n'} {b' = m'} {l = ms} e1 e2) =
    let same1 : option_size (a m.1).vm_info ≡ option_size (a m'.1).vm_info =
      ap (λ k. option_size (a k.1).vm_info) e1 in
    let same2 : option_size (a n.1).vm_info ≡ option_size (a n'.1).vm_info =
      ap (λ k. option_size (a k.1).vm_info) e2 in
    omega (
      arith,
      same1,
      same2,
      length-cons_option (a m.1).vm_info (vm_answers a (n ∷ ms)),
      length-cons_option (a n.1).vm_info (vm_answers a ms),
      length-cons_option (a n'.1).vm_info (vm_answers a (m' ∷ ms)),
      length-cons_option (a m'.1).vm_info (vm_answers a ms),
    )
length-vm_answers-Perm a (Permᴰ.trans d1 d2) =
    length-vm_answers-Perm a d1 ∙ length-vm_answers-Perm a d2

-- What the answers leave alone, and the count of the machines that are to be listed.
abbrev pub Noted : (ℕ → Answer) → List (ℕ × ℕ) → VirtualMachinesList → VirtualMachinesList → Type 0
Noted a ms v w =
    ((w.machines ≡ v.machines)
      × (w.vm_list_viewers ≡ v.vm_list_viewers)
      × (w.admin_vm_list_viewers ≡ v.admin_vm_list_viewers)
      × (w.sent ≡ v.sent)
      × (w.pending_vm_info_requests ≡ v.pending_vm_info_requests - length ms)
      × (w.pending_vm_info_updates ≡ v.pending_vm_info_updates + length (vm_answers a ms)))

note_answer-updates :
    (o id : ℕ) (x : Answer) (v : VirtualMachinesList)
    → (note_answer o id x v).pending_vm_info_updates
      ≡ v.pending_vm_info_updates + option_size x.vm_info
note_answer-updates o id x v = elim (Option-cases x.vm_info) [
  | inl e ↦ rw e (omega arith)
  | inr (i, e) ↦ rw e (omega arith)
]

pub note_all-Noted :
    (a : ℕ → Answer) (ms : List (ℕ × ℕ)) (v : VirtualMachinesList) → Noted a ms v (note_all a ms v)
note_all-Noted a [] v = (refl, refl, refl, refl, omega arith, omega arith)
note_all-Noted a ((id, o) ∷ ms) v =
    let (e1, e2, e3, e4, e5, e6) = note_all-Noted a ms (note_answer o id (a o) v) in
    (
      e1,
      e2,
      e3,
      e4,
      omega (arith, e5),
      omega (
        arith,
        e6,
        note_answer-updates o id (a o) v,
        length-cons_option (a o).vm_info (vm_answers a ms),
      ),
    )

pub pending_admin_vm_infos-eq :
    (a : ℕ → Answer) (v : VirtualMachinesList) (ms : List (ℕ × ℕ))
    → AllAnswered a v ms
    → pending_admin_vm_infos v.objects ms ≡ admin_answers a ms
pending_admin_vm_infos-eq a v [] h = refl
pending_admin_vm_infos-eq a v ((id, o) ∷ ms) ((p, q), hs) =
    rw p (ap (λ l. (a o).admin_vm_info ∷ l) (pending_admin_vm_infos-eq a v ms hs))

pub pending_vm_infos-eq :
    (a : ℕ → Answer) (v : VirtualMachinesList) (ms : List (ℕ × ℕ))
    → AllAnswered a v ms
    → pending_vm_infos v.objects ms ≡ vm_answers a ms
pending_vm_infos-eq a v [] h = refl
pending_vm_infos-eq a v ((id, o) ∷ ms) ((p, q), hs) =
    rw (p, q, pending_vm_infos) (ap (cons_option (a o).vm_info) (pending_vm_infos-eq a v ms hs))

pub length-admin_answers :
    (a : ℕ → Answer) (ms : List (ℕ × ℕ)) → length (admin_answers a ms) ≡ length ms
length-admin_answers a [] = refl
length-admin_answers a ((id, o) ∷ ms) = ap suc (length-admin_answers a ms)
