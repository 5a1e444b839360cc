-- ===== src/Guests/Registered.antt =====
-- CollabVmServer.hpp: every guest is in the map with its name.
use collab_vm_server.Base.{
  ℕ, ◌≡◌, ◌≢◌, refl, sym, ap, ◌∙◌, subst, Bool, true, false, none, some, List, [], ◌∷◌, ◌++◌, ◌==◌,
  ltb, update, Bool-cases, Option-cases, inl, inr, arith, ◌⊎◌, is_empty, ◌-◌, List-cases,
  >>=-eq-some,
}
use collab_vm_server.Message.{Text, text_eq}
use collab_vm_server.Guests.{
  Client, Guests, set_user_data, same_name, find_guest, erase_guest, on_disconnect, change_username,
  free_number, generate_username, log_in,
}
use collab_vm_server.Guests.Names.{
  find_guest-same, find_guest-append_new, find_guest-append_old, find_guest-erase_other,
  find_guest-free_number,
}

-- A client that has a name and no account.
abbrev pub IsGuest : ℕ → Guests → Type 0
IsGuest c s = (((s.clients c).is_logged_in ≡ false) × ((s.clients c).username ≢ []))

module _ (to_upper : ℕ → ℕ) where
  -- Every guest is in the map with its name.
  abbrev pub Registered : Guests → Type 0
  Registered s =
      ((c : ℕ) → IsGuest c s → find_guest to_upper (s.clients c).username s.guests ≡ some c)

  empty-other : (x y : Text) → x ≡ [] → y ≢ [] → same_name to_upper x y ≡ false
  empty-other x [] e n = absurd (n refl)
  empty-other x (b ∷ y) e n = rw e refl

  pub Registered-unique :
      (s : Guests) (c d : ℕ)
      → Registered s
      → IsGuest c s
      → IsGuest d s
      → c ≢ d
      → same_name to_upper (s.clients c).username (s.clients d).username ≡ false
  Registered-unique s c d r gc gd differ =
      elim (Bool-cases (same_name to_upper (s.clients c).username (s.clients d).username)) [
        | inr other ↦ other
        | inl both ↦
            let e =
              find_guest-same to_upper (s.clients c).username (s.clients d).username s.guests
                both in
            let same : some c ≡ some d = sym (r c gc) ∙ e ∙ r d gd in absurd (differ (cc))
      ]

  -- What the name of a client that goes does to the others: nothing.
  old_name-other :
      (s : Guests) (c d : ℕ)
      → Registered s
      → (s.clients c).is_logged_in ≡ false
      → IsGuest d s
      → c ≢ d
      → same_name to_upper (s.clients c).username (s.clients d).username ≡ false
  old_name-other s c d r out gd differ = elim (List-cases (s.clients c).username) [
    | inl e ↦ empty-other (s.clients c).username (s.clients d).username e gd.1
    | inr (x, xs, e) ↦ Registered-unique s c d r (out, λ q. absurd (cc)) gd differ
  ]

  -- A client with a new name, and a map that has it and still has the others.
  named-Registered :
      (s : Guests) (c : ℕ) (name : Text) (gs : List (Text × ℕ))
      → find_guest to_upper name gs ≡ some c
      → ((d : ℕ) → IsGuest d s → c ≢ d → find_guest to_upper (s.clients d).username gs ≡ some d)
      → Registered (set_user_data c name (record s { guests = gs }))
  named-Registered s c name gs mine others d (od, nd) = elim (Bool-cases (d == c)) [
    | inl here ↦ let e : c ≡ d = ground arith in rw here (mine ∙ ap some e)
    | inr other ↦
        let differ : c ≢ d = λ e. absurd (ground arith) in
        rw other (others d (rw other at od, rw other at nd) differ)
  ]

  both_ways : (b : Bool) → b ≡ true → b ≢ false
  both_ways b h k = cc

  -- A client that has left, has no name, or has an account.
  gone-Registered :
      (s : Guests) (c : ℕ) (k : Client) (gs : List (Text × ℕ))
      → (k.is_logged_in ≡ true) ⊎ (k.username ≡ [])
      → ((d : ℕ) → IsGuest d s → c ≢ d → find_guest to_upper (s.clients d).username gs ≡ some d)
      → Registered (record s { guests = gs; clients = update s.clients c k })
  gone-Registered s c k gs gone others d (od, nd) = elim (Bool-cases (d == c)) [
    | inl here ↦ elim gone [
      | inl l ↦ absurd (both_ways k.is_logged_in l (rw here at od))
      | inr l ↦ absurd ((rw here at nd) l)
    ]
    | inr other ↦
        let differ : c ≢ d = λ e. absurd (ground arith) in
        rw other (others d (rw other at od, rw other at nd) differ)
  ]

  -- A client with a new name that is free, in place of its old one.
  rename-Registered :
      (s : Guests) (c : ℕ) (name : Text)
      → Registered s
      → (s.clients c).is_logged_in ≡ false
      → name ≢ []
      → find_guest to_upper name s.guests ≡ none
      → Registered (
          set_user_data c name (record s {
            guests = erase_guest to_upper (s.clients c).username (s.guests ++ (name, c) ∷ []);
          }))
  rename-Registered s c name r out named free =
      named-Registered s c name
        (erase_guest to_upper (s.clients c).username (s.guests ++ (name, c) ∷ []))
        (find_guest-erase_other to_upper name (s.clients c).username (s.guests ++ (name, c) ∷ [])
            not_old
          ∙ find_guest-append_new to_upper name c s.guests free)
        (λ d gd differ.
          find_guest-erase_other to_upper (s.clients d).username (s.clients c).username
            (s.guests ++ (name, c) ∷ []) (old_name-other s c d r out gd differ)
          ∙ find_guest-append_old to_upper (s.clients d).username name c d s.guests (r d gd))
    where
      not_old : same_name to_upper (s.clients c).username name ≡ false
      not_old = elim (List-cases (s.clients c).username) [
        | inl e ↦ empty-other (s.clients c).username name e named
        | inr (x, xs, e) ↦ elim (Bool-cases (same_name to_upper (s.clients c).username name)) [
          | inr other ↦ other
          | inl both ↦
              let found = r c (out, λ q. absurd (cc)) in
              absurd (
                cc (
                  sym found
                  ∙ find_guest-same to_upper (s.clients c).username name s.guests both
                  ∙ free))
        ]
      ]

  pub on_disconnect-Registered :
      (s : Guests) (c : ℕ)
      → Registered s
      → (s.clients c).is_logged_in ≡ false
      → Registered (on_disconnect to_upper c s)
  unfolding on_disconnect
  on_disconnect-Registered s c r out = elim (Bool-cases (is_empty (s.clients c).username)) [
    | inl unnamed ↦ rw unnamed r
    | inr name ↦ rw name (
        gone-Registered s c (record (s.clients c) { username = [] })
          (erase_guest to_upper (s.clients c).username s.guests) (inr refl)
          (λ d gd differ.
            find_guest-erase_other to_upper (s.clients d).username (s.clients c).username s.guests
              (old_name-other s c d r out gd differ)
            ∙ r d gd))
  ]

  pub log_in-Registered :
      (s : Guests) (c : ℕ) (name : Text) → Registered s → Registered (log_in c name s)
  log_in-Registered s c name r =
      gone-Registered s c (record (s.clients c) { is_logged_in = true; username = name }) s.guests
        (inl refl) (λ d gd differ. r d gd)

  module _ (is_valid : Text → Bool) (named : (name : Text) → is_valid name ≡ true → name ≢ [])
      (rate_limit : ℕ) where
    pub change_username-Registered :
        (now c : ℕ) (name : Text) (s : Guests)
        → Registered s
        → Registered (change_username to_upper is_valid rate_limit now c name s)
    unfolding change_username
    change_username-Registered now c name s r =
        elim (Bool-cases (s.clients c).is_captcha_required) [
          | inl stop ↦ rw stop r
          | inr a ↦ elim (Bool-cases (s.clients c).is_logged_in) [
            | inl stop ↦ rw (a, stop) r
            | inr out ↦
                elim (Bool-cases (ltb (now - (s.clients c).last_username_change) rate_limit)) [
                  | inl stop ↦ rw (a, out, stop) r
                  | inr b ↦ elim (Bool-cases (is_valid name)) [
                    | inr stop ↦ rw (a, out, b, stop) r
                    | inl valid ↦ elim (Bool-cases (text_eq (s.clients c).username name)) [
                      | inl stop ↦ rw (a, out, b, valid, stop) r
                      | inr new ↦ elim (Option-cases (find_guest to_upper name s.guests)) [
                        | inr (d, taken) ↦ rw (a, out, b, valid, new, taken) r
                        | inl free ↦
                            rw (a, out, b, valid, new, free)
                              (rename-Registered s c name r out (named name valid) free)
                      ]
                    ]
                  ]
                ]
          ]
        ]

  module _ (guest_name : ℕ → Text) where
    pub generate_username-Registered :
        (fuel num c : ℕ) (s s' : Guests)
        → Registered s
        → generate_username to_upper guest_name fuel num c s ≡ some s'
        → Registered s'
    unfolding generate_username
    generate_username-Registered fuel num c s s' r h =
        let (j, e, q) =
          >>=-eq-some (free_number to_upper guest_name fuel num s.guests)
            (λ n. some (
              set_user_data c (guest_name n)
                (record s { guests = s.guests ++ (guest_name n, c) ∷ [] })))
            h in
        let made : set_user_data c (guest_name j)
              (record s { guests = s.guests ++ (guest_name j, c) ∷ [] })
            ≡ s' =
          cc in
        let free = find_guest-free_number to_upper guest_name fuel num j s.guests e in
        subst Registered made (
          named-Registered s c (guest_name j) (s.guests ++ (guest_name j, c) ∷ [])
            (find_guest-append_new to_upper (guest_name j) c s.guests free)
            (λ d gd differ.
              find_guest-append_old to_upper (s.clients d).username (guest_name j) c d s.guests
                (r d gd)))
