-- ===== src/Accounts/Examples.antt =====
-- Database/Database.cpp: the theorems at a concrete database.
use collab_vm_server.Base.{◌≡◌, refl, true, false, none, some, [], ◌∷◌, ◌++◌, arith}
use collab_vm_server.Message.{Text, text_eq}
use collab_vm_server.Accounts.{
  User, UserInvite, find_invite, Database, registered, invite_invalid, success, invalid_password,
  get_user, create_user, is_username_taken, new_user, create_account, validate_invite, login,
  change_password, update_user,
}
use collab_vm_server.Accounts.Login.{create_account-login, change_password-login}
use collab_vm_server.Accounts.Invites.{create_account-invite}

-- A hash for the examples: the salt, then the password.
abbrev plain_hash : Text → Text → Text
plain_hash password salt = salt ++ password

abbrev ann : Text
ann = 97 ∷ []

abbrev bob : Text
bob = 98 ∷ []

abbrev first_user : User
first_user = record (new_user plain_hash ann (1 ∷ []) none [] (9 ∷ []) 100 true) {
  session_id = 5 ∷ [];
}

abbrev second_user : User
second_user = record (new_user plain_hash bob (2 ∷ []) none [] (8 ∷ []) 200 false) { id = 1 }

abbrev small_db : Database
small_db = record {
  users = first_user ∷ second_user ∷ [];
  next_id = 2;
  invites =
      record { id = 3 ∷ []; username = []; name = []; is_admin = true; accepted = false } ∷ [];
  reserved = [];
}

abbrev carl_db : Database
carl_db = record small_db {
  users =
      first_user
      ∷ second_user
      ∷ record (new_user plain_hash (99 ∷ []) (1 ∷ []) none [] (9 ∷ []) 300 false) { id = 2 }
      ∷ [];
  next_id = 3;
}

carl_created :
    create_account plain_hash (99 ∷ []) (1 ∷ []) none none [] (9 ∷ []) 300 small_db
    ≡ some (carl_db, registered)
unfolding create_account create_user is_username_taken
carl_created = refl

create_account-login_example :
    (login plain_hash (99 ∷ []) (1 ∷ []) carl_db ≡ (success, []))
    × (login plain_hash (99 ∷ []) (2 ∷ []) carl_db ≡ (invalid_password, []))
create_account-login_example =
    create_account-login plain_hash (99 ∷ []) (1 ∷ []) (2 ∷ []) none none [] (9 ∷ []) 300 small_db
      carl_db carl_created (λ e. ground arith)

abbrev changed_db : Database
changed_db = record small_db {
  users = first_user ∷ record second_user { password_hash = 8 ∷ 4 ∷ [] } ∷ [];
}

bob_changed : change_password plain_hash bob (2 ∷ []) (4 ∷ []) small_db ≡ some (changed_db, true)
unfolding change_password update_user get_user
bob_changed = refl

change_password-login_example :
    (u : User) × (get_user bob small_db.users ≡ some u)
    × (u.password_hash ≡ plain_hash (2 ∷ []) u.password_salt)
    × (get_user bob changed_db.users
        ≡ some (record u { password_hash = plain_hash (4 ∷ []) u.password_salt }))
change_password-login_example =
    change_password-login plain_hash bob (2 ∷ []) (4 ∷ []) small_db changed_db bob_changed

invite_open : (validate_invite (3 ∷ []) small_db).0 ≡ true
unfolding validate_invite
invite_open = refl

create_account-invite_example :
    (db' : Database) × (create_account plain_hash
        (99 ∷ [])
        (1 ∷ [])
        none
        (some (3 ∷ []))
        []
        (9 ∷ [])
        300
        small_db
      ≡ some (db', registered))
    × ((i : UserInvite) × (find_invite (λ (j : UserInvite). text_eq j.id (3 ∷ [])) db'.invites
          ≡ some i)
        × (db'.users
            ≡ small_db.users
              ++ record (new_user plain_hash (99 ∷ []) (1 ∷ []) none [] (9 ∷ []) 300 i.is_admin) {
                id = 2;
              }
                ∷ []))
    × (validate_invite (3 ∷ []) db' ≡ (false, []))
    × (create_account plain_hash (100 ∷ []) (2 ∷ []) none (some (3 ∷ [])) [] (7 ∷ []) 400 db'
        ≡ some (db', invite_invalid))
create_account-invite_example =
    create_account-invite plain_hash (99 ∷ []) (100 ∷ []) (1 ∷ []) (2 ∷ []) (3 ∷ []) none none []
      (9 ∷ []) [] (7 ∷ []) 300 400 small_db invite_open
