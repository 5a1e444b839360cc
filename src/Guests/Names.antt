-- ===== src/Guests/Names.antt =====
-- CollabVmServer.hpp: the map of the guests by name, and the choice of a guest's number.
use collab_vm_server.Base.{
  ℕ, zero, suc, ◌+◌, ◌%◌, ◌^◌, ◌≡◌, ◌≢◌, ◌<◌, ◌≤◌, refl, sym, ap, ◌∙◌, subst, true, false, none,
  some, List, [], ◌∷◌, ◌++◌, length, map, ◌==◌, ==_refl, if◌then◌else◌, Bool-cases, Option-cases,
  inl, inr, arith, ◌⊎◌,
}
use collab_vm_server.Message.{Text, text_eq}
use collab_vm_server.Guests.{
  same_name, find_guest, erase_guest, free_number, generate_username, set_user_data, Guests,
}

text_eq-eq : (x y : Text) → text_eq x y ≡ true → x ≡ y
text_eq-eq [] [] h = refl
text_eq-eq [] (b ∷ y) h = absurd (cc)
text_eq-eq (a ∷ x) [] h = absurd (cc)
text_eq-eq (a ∷ x) (b ∷ y) h = elim (Bool-cases (a == b)) [
  | inl same ↦
      let e : a ≡ b = ground arith in
      let rest : text_eq x y ≡ true = ground arith in let f : x ≡ y = text_eq-eq x y rest in cc
  | inr differ ↦ absurd (ground arith)
]

text_eq_refl : (x : Text) → text_eq x x ≡ true
text_eq_refl [] = refl
text_eq_refl (a ∷ x) = ground (arith, text_eq_refl x)

module _ (to_upper : ℕ → ℕ) where
  pub same_name_refl : (x : Text) → same_name to_upper x x ≡ true
  same_name_refl x = text_eq_refl (map to_upper x)

  pub same_name_trans :
      (x y z : Text)
      → same_name to_upper x y ≡ true
      → same_name to_upper x z ≡ true
      → same_name to_upper y z ≡ true
  same_name_trans x y z h k =
      let e : map to_upper y ≡ map to_upper z =
        sym (text_eq-eq (map to_upper x) (map to_upper y) h)
        ∙ text_eq-eq (map to_upper x) (map to_upper z) k in
      subst (λ t. text_eq (map to_upper y) t ≡ true) e (text_eq_refl (map to_upper y))

  pub find_guest-same :
      (x y : Text) (gs : List (Text × ℕ))
      → same_name to_upper x y ≡ true
      → find_guest to_upper x gs ≡ find_guest to_upper y gs
  find_guest-same x y [] h = refl
  find_guest-same x y ((n, c) ∷ gs) h =
      let e : map to_upper x ≡ map to_upper y = text_eq-eq (map to_upper x) (map to_upper y) h in
      ap (λ t. if text_eq (map to_upper n) t then some c else find_guest to_upper x gs) e
      ∙ ap (λ o. if same_name to_upper n y then some c else o) (find_guest-same x y gs h)

  pub find_guest-append_new :
      (x : Text) (c : ℕ) (gs : List (Text × ℕ))
      → find_guest to_upper x gs ≡ none
      → find_guest to_upper x (gs ++ (x, c) ∷ []) ≡ some c
  find_guest-append_new x c [] h = rw (same_name_refl x) refl
  find_guest-append_new x c ((n, d) ∷ gs) h = ground (arith, find_guest-append_new x c gs)

  pub find_guest-append_old :
      (x y : Text) (c d : ℕ) (gs : List (Text × ℕ))
      → find_guest to_upper x gs ≡ some d
      → find_guest to_upper x (gs ++ (y, c) ∷ []) ≡ some d
  find_guest-append_old x y c d [] h = absurd (cc)
  find_guest-append_old x y c d ((n, e) ∷ gs) h = ground (arith, find_guest-append_old x y c d gs)

  pub find_guest-erase_other :
      (x y : Text) (gs : List (Text × ℕ))
      → same_name to_upper y x ≡ false
      → find_guest to_upper x (erase_guest to_upper y gs) ≡ find_guest to_upper x gs
  find_guest-erase_other x y [] h = refl
  find_guest-erase_other x y ((n, c) ∷ gs) h =
      ground (arith, find_guest-erase_other x y gs, same_name_trans n y x)

  pub find_guest-free_number :
      (guest_name : ℕ → Text) (fuel num j : ℕ) (gs : List (Text × ℕ))
      → free_number to_upper guest_name fuel num gs ≡ some j
      → find_guest to_upper (guest_name j) gs ≡ none
  find_guest-free_number guest_name zero num j gs h = absurd (cc)
  find_guest-free_number guest_name (suc fuel) num j gs h =
      elim (Option-cases (find_guest to_upper (guest_name num) gs)) [
        | inl e ↦
            let here : some num ≡ some j = rw (free_number, e) at h in
            let same : num ≡ j = cc in
            subst (λ i. find_guest to_upper (guest_name i) gs ≡ none) same e
        | inr (c, e) ↦
            find_guest-free_number guest_name fuel ((num + 1) % 2 ^ 32) j gs
              (rw (free_number, e) at h)
      ]

  -- The numbers from `num` up to `last` are taken.
  abbrev pub Taken : (ℕ → Text) → ℕ → ℕ → List (Text × ℕ) → Type 0
  Taken guest_name num last gs =
      ((j : ℕ) → num ≤ j → j < last → find_guest to_upper (guest_name j) gs ≢ none)

  module _ (guest_name : ℕ → Text)
      (distinct : (m n : ℕ) → same_name to_upper (guest_name m) (guest_name n) ≡ true → m ≡ n) where
    Taken-extend :
        (num last : ℕ) (gs : List (Text × ℕ))
        → find_guest to_upper (guest_name num) gs ≢ none
        → Taken guest_name (num + 1) last gs
        → Taken guest_name num last gs
    Taken-extend num last gs first rest j a b = elim (Bool-cases (j == num)) [
      | inl here ↦
          let e : num ≡ j = ground arith in
          subst (λ i. find_guest to_upper (guest_name i) gs ≢ none) e first
      | inr later ↦ rest j (ground arith) b
    ]

    erase_guest-le :
        (x : Text) (gs : List (Text × ℕ)) → length (erase_guest to_upper x gs) ≤ length gs
    erase_guest-le x [] = omega arith
    erase_guest-le x ((n, c) ∷ gs) = ground (arith, erase_guest-le x gs)

    erase_guest-shorter :
        (x : Text) (gs : List (Text × ℕ))
        → find_guest to_upper x gs ≢ none
        → length (erase_guest to_upper x gs) < length gs
    erase_guest-shorter x [] h = absurd (h refl)
    erase_guest-shorter x ((n, c) ∷ gs) h = elim (Bool-cases (same_name to_upper n x)) [
      | inl same ↦ rw same (omega (arith, erase_guest-le x gs))
      | inr differ ↦
          let found : find_guest to_upper x gs ≢ none = λ e. h (rw differ e) in
          rw differ (omega (arith, erase_guest-shorter x gs found))
    ]

    -- As many guests there are.
    Taken-le_length :
        (n num : ℕ) (gs : List (Text × ℕ)) → Taken guest_name num (num + n) gs → n ≤ length gs
    Taken-le_length zero num gs h = omega arith
    Taken-le_length (suc n) num gs h =
        let fewer = erase_guest-shorter (guest_name num) gs (h num (omega arith) (omega arith)) in
        omega (
          arith,
          fewer,
          Taken-le_length n (num + 1) (erase_guest to_upper (guest_name num) gs) rest,
        )
      where
        rest : Taken guest_name (num + 1) (num + 1 + n) (erase_guest to_upper (guest_name num) gs)
        rest j a b =
            let other : same_name to_upper (guest_name num) (guest_name j) ≡ false =
              elim (Bool-cases (same_name to_upper (guest_name num) (guest_name j))) [
                | inl e ↦ absurd (omega (arith, a, distinct num j e))
                | inr e ↦ e
              ] in
            rw (find_guest-erase_other (guest_name j) (guest_name num) gs other)
              (h j (omega (arith, a)) (omega (arith, b)))

    -- The first number that is free, or none of `fuel` numbers is.
    free_number-first :
        (fuel num : ℕ) (gs : List (Text × ℕ))
        → num + fuel < 2 ^ 32
        → ((j : ℕ) × (free_number to_upper guest_name fuel num gs ≡ some j)
            × (num ≤ j)
            × (find_guest to_upper (guest_name j) gs ≡ none)
            × Taken guest_name num j gs)
          ⊎ Taken guest_name num (num + fuel) gs
    free_number-first zero num gs h = inr (λ j a b. absurd (omega (arith, a, b)))
    free_number-first (suc fuel) num gs h =
        elim (Option-cases (find_guest to_upper (guest_name num) gs)) [
          | inl e ↦
              inl (
                num,
                rw (e, free_number) refl,
                omega arith,
                e,
                λ j a b. absurd (omega (arith, a, b)),
              )
          | inr (c, e) ↦
              let small : (num + 1) % 2 ^ 32 ≡ num + 1 = omega arith in
              elim (free_number-first fuel (num + 1) gs (omega arith)) [
                | inl (j, q, l, free, taken) ↦ inl (
                  j,
                  rw (e, free_number, small) q,
                  omega (arith, l),
                  free,
                  Taken-extend num j gs (λ k. absurd (cc)) taken,
                )
                | inr taken ↦ inr (
                    Taken-extend num (num + suc fuel) gs (λ k. absurd (cc))
                      (λ j a b. taken j a (omega (arith, b))))
              ]
        ]

    -- When different numbers make different names and the numbers that follow do not leave 32 bits, one
    -- attempt more than there are guests is enough: the name has the first number from the drawn one on
    -- that is free, in whatever case names are written, and it is then the client's in the map and for
    -- itself.
    pub generate_username_lem :
        (num c : ℕ) (s : Guests)
        → num + suc (length s.guests) < 2 ^ 32
        → (j : ℕ) × (s' : Guests) × (generate_username to_upper guest_name
              (suc (length s.guests))
              num
              c
              s
            ≡ some s')
          × (num ≤ j)
          × (find_guest to_upper (guest_name j) s.guests ≡ none)
          × Taken guest_name num j s.guests
          × ((s'.clients c).username ≡ guest_name j)
          × (find_guest to_upper (guest_name j) s'.guests ≡ some c)
    unfolding generate_username
    generate_username_lem num c s h =
        elim (free_number-first (suc (length s.guests)) num s.guests h) [
          | inr taken ↦
              absurd (omega (arith, Taken-le_length (suc (length s.guests)) num s.guests taken))
          | inl (j, e, l, free, taken) ↦ (
            j,
            set_user_data c (guest_name j)
                (record s { guests = s.guests ++ (guest_name j, c) ∷ [] }),
            rw e refl,
            l,
            free,
            taken,
            rw (==_refl c) refl,
            find_guest-append_new (guest_name j) c s.guests free,
          )
        ]
