-- ===== src/Auth/Tables.antt =====
-- Database/Database.cpp: `CreateSession`, `ChangePassword` and `CreateAccount` lose no name and no right.
use collab_vm_server.Base.{
  ℕ, ◌≡◌, ◌⊎◌, inl, inr, refl, sym, subst, ◌∙◌, Bool, true, false, Option, none, some, List, [],
  ◌∷◌, Bool-cases, Option-cases,
}
use collab_vm_server.Message.{Text, text_eq}
use collab_vm_server.Accounts.{
  User, UserInvite, Database, RegisterAccountError, registered, username_taken, invite_invalid, any,
  get_user, replace, session_taken, update_user, create_user, create_session, change_password,
  create_account, new_user, accept, open_invite, find_invite, is_username_taken,
}
use collab_vm_server.Accounts.Rows.{text_eq_refl, changed_db, registered_db}
use collab_vm_server.Accounts.Sessions.{with_session}
use collab_vm_server.Auth.Rows.{
  has_name, is_admin_named, Keyed, Grows, Grows_refl, Grows-replace, Grows-create_user,
  get_user-any,
}

-- The name and the right that a session is opened with are an account's.
abbrev pub Entitled : Text → Bool → Database → Type 0
Entitled name is_admin db =
    (any (has_name name) db.users ≡ true)
    × (is_admin ≡ true → any (is_admin_named name) db.users ≡ true)

abbrev pub Created : Type 0
Created = Database × (Text × Bool × Text × Text)

pub created_cc :
    (db db' : Database) (n n' : Text) (a a' : Bool) (o o' i i' : Text)
    → Path (Option Created) (some (db, (n, a, o, i))) (some (db', (n', a', o', i')))
    → (db ≡ db') × (n ≡ n') × (a ≡ a')
created_cc db db' n n' a a' o o' i i' e = (cc, cc, cc)

-- No session: nothing has changed.
refused :
    (db db' : Database) (n : Text) (admin : Bool)
    → (db ≡ db') × ([] ≡ n) × (false ≡ admin)
    → Grows db db' × ((n ≡ []) ⊎ Entitled n admin db')
refused db db' n admin (d, e, a) = (subst (Grows db) d (Grows_refl db), inl (sym e))

-- The session of the user `u`, who has been found.
accepted :
    (now : ℕ) (name ip id : Text) (u : User) (db db' : Database) (n : Text) (admin : Bool)
    → Keyed db
    → get_user name db.users ≡ some u
    → (record db { users = replace (with_session now ip id u) db.users } ≡ db')
      × (u.username ≡ n)
      × (u.is_admin ≡ admin)
    → Grows db db' × ((n ≡ []) ⊎ Entitled n admin db')
accepted now name ip id u db db' n admin k found (d, e, a) =
    let grown = Grows-replace db name u (with_session now ip id u) k found refl refl refl in
    subst (λ t. Grows db t × ((n ≡ []) ⊎ Entitled n admin t)) d
      (
        grown,
        inr (
          subst (λ t. any (has_name t) (replace (with_session now ip id u) db.users) ≡ true) e
              (grown.names u.username (
                get_user-any (has_name u.username) name db.users u found
                  (text_eq_refl u.username))),
          λ x.
              subst
                (λ t. any (is_admin_named t) (replace (with_session now ip id u) db.users) ≡ true) e
                (grown.admins u.username (
                  get_user-any (is_admin_named u.username) name db.users u found
                    (rw (text_eq_refl u.username) (a ∙ x)))),
        ),
      )

pub create_session-Grows :
    (ids : List Text) (now : ℕ) (name ip_address : Text) (db db' : Database) (n : Text)
    (admin : Bool) (old new : Text)
    → Keyed db
    → create_session ids now name ip_address db ≡ some (db', (n, admin, old, new))
    → Grows db db' × ((n ≡ []) ⊎ Entitled n admin db')
unfolding create_session update_user
create_session-Grows [] now name ip db db' n admin old new k e = absurd (cc)
create_session-Grows (id ∷ ids) now name ip db db' n admin old new k e =
    elim (Option-cases (get_user name db.users)) [
      | inl a ↦
          let q : create_session (id ∷ ids) now name ip db ≡ some (db, ([], false, [], [])) =
            rw (a, create_session) refl in
          refused db db' n admin (created_cc db db' [] n false admin [] old [] new (sym q ∙ e))
      | inr (u, a) ↦ elim (Bool-cases u.is_disabled) [
        | inl d ↦
            let q : create_session (id ∷ ids) now name ip db ≡ some (db, ([], false, [], [])) =
              rw (a, create_session) (rw d refl) in
            refused db db' n admin (created_cc db db' [] n false admin [] old [] new (sym q ∙ e))
        | inr d ↦ elim (Bool-cases (session_taken (with_session now ip id u) db.users)) [
          | inl t ↦
              let q : create_session (id ∷ ids) now name ip db ≡ create_session ids now name ip db =
                rw (a, create_session) (rw (d, t) refl) in
              create_session-Grows ids now name ip db db' n admin old new k (sym q ∙ e)
          | inr f ↦
              let after = record db { users = replace (with_session now ip id u) db.users } in
              let q : create_session (id ∷ ids) now name ip db
                  ≡ some (after, (u.username, u.is_admin, id, id)) =
                rw (a, create_session) (rw (d, f) refl) in
              accepted now name ip id u db db' n admin k a
                (created_cc after db' u.username n u.is_admin admin id old id new (sym q ∙ e))
        ]
      ]
    ]

module _ (argon2 : Text → Text → Text) where
  pub change_password-Grows :
      (name old new : Text) (db db' : Database) (changed : Bool)
      → Keyed db
      → change_password argon2 name old new db ≡ some (db', changed)
      → Grows db db'
  unfolding change_password update_user
  change_password-Grows name old new db db' changed k e =
      elim (Option-cases (get_user name db.users)) [
        | inl a ↦
            let q : change_password argon2 name old new db ≡ some (db, false) =
              rw (a, change_password) refl in
            subst (Grows db) ((changed_db db db' false changed (sym q ∙ e)).0) (Grows_refl db)
        | inr (u, a) ↦ elim (Bool-cases (text_eq u.password_hash (argon2 old u.password_salt))) [
          | inr wrong ↦
              let q : change_password argon2 name old new db ≡ some (db, false) =
                rw (a, change_password) (rw wrong refl) in
              subst (Grows db) ((changed_db db db' false changed (sym q ∙ e)).0) (Grows_refl db)
          | inl right ↦
              let u' = record u { password_hash = argon2 new u.password_salt } in
              elim (Bool-cases (session_taken u' db.users)) [
                | inl taken ↦
                    let q : change_password argon2 name old new db ≡ none =
                      rw (a, change_password) (rw (right, taken) refl) in
                    absurd (cc (sym q ∙ e))
                | inr free ↦
                    let after = record db { users = replace u' db.users } in
                    let q : change_password argon2 name old new db ≡ some (after, true) =
                      rw (a, change_password) (rw (right, free) refl) in
                    subst (Grows db) ((changed_db after db' true changed (sym q ∙ e)).0)
                      (Grows-replace db name u u' k a refl refl refl)
              ]
        ]
      ]

  with_row :
      (db : Database) (is : List UserInvite) (u : User)
      → Grows db (create_user u (record db { invites = is }))
  with_row db is u =
      let g = Grows-create_user (record db { invites = is }) u in
      record {
        names = g.names;
        admins = g.admins;
        keyed = λ k. g.keyed (record { distinct = k.distinct; below = k.below });
      }

  pub create_account-Grows :
      (name password : Text) (totp_key invite_id : Option Text) (ip salt : Text) (now : ℕ)
      (db db' : Database) (result : RegisterAccountError)
      → create_account argon2 name password totp_key invite_id ip salt now db ≡ some (db', result)
      → Grows db db'
  unfolding create_account
  create_account-Grows name password totp_key none ip salt now db db' result e =
      elim (Bool-cases (is_username_taken name db)) [
        | inl t ↦
            let q : create_account argon2 name password totp_key none ip salt now db
                ≡ some (db, username_taken) =
              rw t refl in
            subst (Grows db) ((registered_db db db' username_taken result (sym q ∙ e)).0)
              (Grows_refl db)
        | inr f ↦
            let row =
              new_user argon2 name password totp_key ip salt now
                (elim db.users [ [] ↦ true | u ∷ us ↦ false ]) in
            let q : create_account argon2 name password totp_key none ip salt now db
                ≡ some (create_user row db, registered) =
              rw f refl in
            subst (Grows db)
              ((registered_db (create_user row db) db' registered result (sym q ∙ e)).0)
              (Grows-create_user db row)
      ]
  create_account-Grows name password totp_key (some id) ip salt now db db' result e =
      let is = accept id db.invites in
      elim (Bool-cases (any (open_invite id) db.invites)) [
        | inr f ↦
            let q : create_account argon2 name password totp_key (some id) ip salt now db
                ≡ some (db, invite_invalid) =
              rw f refl in
            subst (Grows db) ((registered_db db db' invite_invalid result (sym q ∙ e)).0)
              (Grows_refl db)
        | inl t ↦ elim (Option-cases (find_invite (λ (i : UserInvite). text_eq i.id id) is)) [
          | inl absent ↦
              let q : create_account argon2 name password totp_key (some id) ip salt now db ≡ none =
                rw (t, absent) refl in
              absurd (cc (sym q ∙ e))
          | inr (i, found) ↦
              let row = new_user argon2 name password totp_key ip salt now i.is_admin in
              let after = create_user row (record db { invites = is }) in
              let q : create_account argon2 name password totp_key (some id) ip salt now db
                  ≡ some (after, registered) =
                rw (t, found) refl in
              subst (Grows db) ((registered_db after db' registered result (sym q ∙ e)).0)
                (with_row db is row)
        ]
      ]
