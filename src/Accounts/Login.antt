-- ===== src/Accounts/Login.antt =====
-- Database/Database.cpp: registration, login, the change of a password and sessions.
use collab_vm_server.Base.{
  is_empty, ℕ, ◌≡◌, ◌≢◌, refl, sym, ap, subst, ◌∙◌, Bool, true, false, not, Option, none, some,
  List, [], ◌∷◌, ◌++◌, if◌then◌else◌, arith, Bool-cases, Option-cases, inl, inr,
}
use collab_vm_server.Message.{Text, text_eq}
use collab_vm_server.Accounts.{
  User, UserInvite, accept, open_invite, find_invite, Database, registered, invite_invalid,
  username_taken, LoginResult, success, two_factor_required, invalid_password, any, get_user,
  replace, session_taken, update_user, create_user, is_username_taken, login, change_password,
  new_user, create_account,
}
use collab_vm_server.Accounts.Rows.{
  text_eq_refl, text_eq→≡, get_user-last, get_user-name, get_user-replace, registered_db,
  changed_db, text_eq-differs, any-last,
}

module _ (argon2 : Text → Text → Text) where
  -- The row of the account that has been created is the last one.
  created :
      (name password : Text) (totp_key invite_id : Option Text) (ip salt : Text) (now : ℕ)
      (db db' : Database)
      → create_account argon2 name password totp_key invite_id ip salt now db
        ≡ some (db', registered)
      → (old : List User) × (id : ℕ) × (admin : Bool) × (db'.users
          ≡ old
            ++ record (new_user argon2 name password totp_key ip salt now admin) { id = id } ∷ [])
  unfolding create_account create_user
  created name password totp_key none ip salt now db db' e =
      elim (Bool-cases (is_username_taken name db)) [
        | inl t ↦
            let q : create_account argon2 name password totp_key none ip salt now db
                ≡ some (db, username_taken) =
              rw t refl in
            absurd (cc ((registered_db db db' username_taken registered (sym q ∙ e)).1))
        | inr f ↦
            let admin : Bool = elim db.users [ [] ↦ true | u ∷ us ↦ false ] in
            let after = create_user (new_user argon2 name password totp_key ip salt now admin) db in
            let q : create_account argon2 name password totp_key none ip salt now db
                ≡ some (after, registered) =
              rw f refl in
            (
              db.users,
              db.next_id,
              admin,
              ap (λ (d : Database). d.users)
                  (sym ((registered_db after db' registered registered (sym q ∙ e)).0)),
            )
      ]
  created name password totp_key (some invite_id) ip salt now db db' e =
      let accepted = record db { invites = accept invite_id db.invites } in
      elim (Bool-cases (any (open_invite invite_id) db.invites)) [
        | inl t ↦
            elim (Option-cases
              (find_invite (λ (i : UserInvite). text_eq i.id invite_id) accepted.invites)) [
                | inl absent ↦
                    let q : create_account argon2 name password totp_key (some invite_id) ip salt
                          now db
                        ≡ none =
                      rw (t, absent) refl in
                    absurd (cc (sym q ∙ e))
                | inr (i, found) ↦
                    let after =
                      create_user (new_user argon2 name password totp_key ip salt now i.is_admin)
                        accepted in
                    let q : create_account argon2 name password totp_key (some invite_id) ip salt
                          now db
                        ≡ some (after, registered) =
                      rw (t, found) refl in
                    (
                      db.users,
                      db.next_id,
                      i.is_admin,
                      ap (λ (d : Database). d.users)
                          (sym ((registered_db after db' registered registered (sym q ∙ e)).0)),
                    )
              ]
        | inr f ↦
            let q : create_account argon2 name password totp_key (some invite_id) ip salt now db
                ≡ some (db, invite_invalid) =
              rw f refl in
            absurd (cc ((registered_db db db' invite_invalid registered (sym q ∙ e)).1))
      ]

  second_factor :
      (totp_key : Option Text)
      → let key : Text = elim totp_key [ none ↦ [] | some k ↦ k ] in
        Path
          (LoginResult × Text)
          (if not (is_empty key) then (two_factor_required, key) else (success, []))
          (elim totp_key [
            | none ↦ (success, [])
            | some k ↦ if is_empty k then (success, []) else (two_factor_required, k)
          ])
  second_factor none = refl
  second_factor (some []) = refl
  second_factor (some (c ∷ k)) = refl

  -- An account that is created is the one that its name logs in: with its password, by which a second
  -- factor is asked for exactly if it has a key, and with no password that hashes to something else.
  pub create_account-login :
      (name password other : Text) (totp_key invite_id : Option Text) (ip salt : Text) (now : ℕ)
      (db db' : Database)
      → create_account argon2 name password totp_key invite_id ip salt now db
        ≡ some (db', registered)
      → argon2 other salt ≢ argon2 password salt
      → (login argon2 name password db' ≡ elim totp_key [
        | none ↦ (success, [])
        | some key ↦ if is_empty key then (success, []) else (two_factor_required, key)
      ])
        × (login argon2 name other db' ≡ (invalid_password, []))
  unfolding login
  create_account-login name password other totp_key invite_id ip salt now db db' e d =
      let (old, id, admin, q) = created name password totp_key invite_id ip salt now db db' e in
      let row = record (new_user argon2 name password totp_key ip salt now admin) { id = id } in
      let found : get_user name db'.users ≡ some row =
        rw q (get_user-last name old row (text_eq_refl name)) in
      (
        rw (found, login) (rw (text_eq_refl (argon2 password salt)) (second_factor totp_key)),
        rw (found, login)
            (rw (text_eq-differs (argon2 password salt) (argon2 other salt) (λ p. d (sym p))) refl),
      )

  -- The name of an account cannot be registered again without an invitation.
  pub create_account-taken :
      (name password password' : Text) (totp_key totp_key' invite_id : Option Text)
      (ip salt ip' salt' : Text) (now later : ℕ) (db db' : Database)
      → create_account argon2 name password totp_key invite_id ip salt now db
        ≡ some (db', registered)
      → create_account argon2 name password' totp_key' none ip' salt' later db'
        ≡ some (db', username_taken)
  unfolding create_account is_username_taken
  create_account-taken name password password' totp_key totp_key' invite_id ip salt ip' salt' now
        later db db' e =
      let (old, id, admin, q) = created name password totp_key invite_id ip salt now db db' e in
      let row = record (new_user argon2 name password totp_key ip salt now admin) { id = id } in
      ground
        (arith, any-last (λ (u : User). text_eq u.username name) old row (text_eq_refl name), q)

  -- When a password is changed the new one is accepted in place of the old one, whichever other
  -- accounts there are.
  pub change_password-login :
      (name old new : Text) (db db' : Database)
      → change_password argon2 name old new db ≡ some (db', true)
      → (u : User) × (get_user name db.users ≡ some u)
        × (u.password_hash ≡ argon2 old u.password_salt)
        × (get_user name db'.users ≡ some (record u { password_hash = argon2 new u.password_salt }))
  unfolding change_password update_user
  change_password-login name old new db db' e = elim (Option-cases (get_user name db.users)) [
    | inl a ↦
        let q : change_password argon2 name old new db ≡ some (db, false) =
          rw (a, change_password) refl in
        absurd (cc ((changed_db db db' false true (sym q ∙ e)).1))
    | inr (u, a) ↦ elim (Bool-cases (text_eq u.password_hash (argon2 old u.password_salt))) [
      | inr wrong ↦
          let q : change_password argon2 name old new db ≡ some (db, false) =
            rw (a, change_password) (rw wrong refl) in
          absurd (cc ((changed_db db db' false true (sym q ∙ e)).1))
      | inl right ↦
          let u' = record u { password_hash = argon2 new u.password_salt } in
          elim (Bool-cases (session_taken u' db.users)) [
            | inl taken ↦
                let q : change_password argon2 name old new db ≡ none =
                  rw (a, change_password) (rw (right, taken) refl) in
                absurd (cc (sym q ∙ e))
            | inr free ↦
                let after = record db { users = replace u' db.users } in
                let q : change_password argon2 name old new db ≡ some (after, true) =
                  rw (a, change_password) (rw (right, free) refl) in
                let same = (changed_db after db' true true (sym q ∙ e)).0 in
                (
                  u,
                  a,
                  text_eq→≡ u.password_hash (argon2 old u.password_salt) right,
                  subst (λ (d : Database). get_user name d.users ≡ some u') same
                      (get_user-replace name db.users u u' a refl
                        (get_user-name name db.users u a)),
                )
          ]
    ]
  ]
