-- ===== src/Accounts.antt =====
-- Database/Database.cpp: accounts, sessions, invitations and reserved names. A table is the list of its
-- rows, under the constraints that the constructor's statements declare. Argon2 is an argument, and so
-- are the random bytes and the time; it fills `password_hash_len` bytes, as many as a stored hash has, so
-- that `std::equal` over the stored one is the equality of both. `none` is an exception that is not caught, or for the sessions
-- and the invitations a loop that has tried all the random bytes given. An empty vector is bound as a
-- NULL, an empty string as an empty text.
pub mod Rows
pub mod Login
pub mod Invites
pub mod Sessions
mod Examples
use collab_vm_server.Base.{
  is_empty, ℕ, zero, suc, ◌+◌, Bool, true, false, not, ◌&&◌, ◌||◌, Option, none, some, List, [],
  ◌∷◌, ◌++◌, map, ◌==◌, if◌then◌else◌, ◌>>=◌, map_option,
}
use collab_vm_server.Message.{Text, text_eq}

pub record User : Type 0 where
  pub id : ℕ
  pub username : Text
  pub password_hash : Text
  pub password_salt : Text
  pub totp_key : Text
  pub session_id : Text
  pub registration_date : ℕ
  pub registration_ip_address : Text
  pub last_active_ip_address : Text
  pub last_login : ℕ
  pub last_failed_login : Option ℕ
  pub last_online : ℕ
  pub failed_logins : ℕ
  pub is_admin : Bool
  pub is_disabled : Bool

pub record UserInvite : Type 0 where
  pub id : Text
  pub username : Text
  pub name : Text
  pub is_admin : Bool
  pub accepted : Bool

-- The tables User, UserInvite and UnavailableUsername, and the counter of AUTOINCREMENT.
pub record Database : Type 0 where
  pub users : List User
  pub next_id : ℕ
  pub invites : List UserInvite
  pub reserved : List Text

pub data RegisterAccountError : Type 0 where
  registered invite_invalid username_taken : RegisterAccountError

pub data LoginResult : Type 0 where
  success invalid_username account_disabled invalid_password two_factor_required : LoginResult

abbrev pub any {ℓ} : {A : Type ℓ} → (A → Bool) → List A → Bool
any p [] = false
any p (x ∷ xs) = p x || any p xs

-- Every row with the name is put into the result in turn, so the last one stays.
unfoldable pub get_user : Text → List User → Option User
get_user name [] = none
get_user name (u ∷ us) = elim (get_user name us) [
  | some v ↦ some v
  | none ↦ if text_eq u.username name then some u else none
]

-- The rows with the user's id become the user.
abbrev pub replace : User → List User → List User
replace u [] = []
replace u (v ∷ vs) = (if v.id == u.id then u else v) ∷ replace u vs

-- Another row has the session id, which is declared unique.
abbrev pub session_taken : User → List User → Bool
session_taken u us =
    not (is_empty u.session_id)
    && any (λ v. not (v.id == u.id) && text_eq v.session_id u.session_id) us

-- `none` is a violated constraint.
unfoldable pub update_user : User → Database → Option Database
update_user u db =
    if session_taken u db.users then none else some (record db { users = replace u db.users })

-- The row gets the next id. Its session id is NULL, so no constraint can be violated.
unfoldable pub create_user : User → Database → Database
create_user u db = record db {
  users = db.users ++ record u { id = db.next_id } ∷ [];
  next_id = db.next_id + 1;
}

abbrev pub open_invite : Text → UserInvite → Bool
open_invite invite_id i = text_eq i.id invite_id && not i.accepted

abbrev pub accept : Text → List UserInvite → List UserInvite
accept invite_id [] = []
accept invite_id (i ∷ is) =
    (if open_invite invite_id i then record i { accepted = true } else i) ∷ accept invite_id is

abbrev pub find_invite : (UserInvite → Bool) → List UserInvite → Option UserInvite
find_invite p [] = none
find_invite p (i ∷ is) = if p i then some i else find_invite p is

-- The query over the three tables.
unfoldable pub is_username_taken : Text → Database → Bool
is_username_taken name db =
    any (λ u. text_eq u.username name) db.users
    || any (λ r. text_eq r name) db.reserved
    || any (λ i. text_eq i.username name) db.invites

unfoldable pub validate_invite : Text → Database → Bool × Text
validate_invite invite_id db = elim (find_invite (open_invite invite_id) db.invites) [
  | none ↦ (false, [])
  | some i ↦ (true, i.username)
]

unfoldable pub delete_invite : Text → Database → Database × Bool
delete_invite invite_id db =
    (record db { invites = kept db.invites }, any (λ i. text_eq i.id invite_id) db.invites)
  where
    kept : List UserInvite → List UserInvite
    kept [] = []
    kept (i ∷ is) = let rest = kept is in if text_eq i.id invite_id then rest else i ∷ rest

unfoldable pub create_reserved_username : Text → Database → Database × Bool
create_reserved_username name db =
    if any (λ r. text_eq r name) db.reserved
    then (db, false)
    else (record db { reserved = db.reserved ++ name ∷ [] }, true)

unfoldable pub delete_reserved_username : Text → Database → Database × Bool
delete_reserved_username name db = (record db { reserved = kept db.reserved }, true)
  where
    kept : List Text → List Text
    kept [] = []
    kept (r ∷ rs) = let rest = kept rs in if text_eq r name then rest else r ∷ rest

-- `ids` are the random bytes, one for each turn of the loop.
unfoldable pub insert_invite : List Text → UserInvite → Database → Option (Database × Option Text)
insert_invite [] invite db = none
insert_invite (id ∷ ids) invite db =
    let again = insert_invite ids invite db in
    if any (λ i. text_eq i.id id) db.invites
    then again
    else (if any (λ i. text_eq i.username invite.username) db.invites
        then some (db, none)
        else some (record db { invites = db.invites ++ record invite { id = id } ∷ [] }, some id))

unfoldable pub create_invite :
    List Text → Text → Text → Bool → Database → Option (Database × Option Text)
unfolding insert_invite
create_invite ids invite_name name is_admin db =
    if not (is_empty name) && any (λ u. text_eq u.username name) db.users
    then some (db, none)
    else insert_invite ids
        (record {
          id = [];
          username = name;
          name = invite_name;
          is_admin = is_admin;
          accepted = false;
        })
        db

-- `ids` are the random bytes, one for each turn of the loop. Both ids of the result are the new one.
unfoldable pub create_session :
    List Text → ℕ → Text → Text → Database → Option (Database × (Text × Bool × Text × Text))
unfolding get_user update_user
create_session [] now name ip_address db = none
create_session (new_session_id ∷ ids) now name ip_address db =
    let again = create_session ids now name ip_address db in
    elim (get_user name db.users) [
      | none ↦ some (db, ([], false, [], []))
      | some user ↦
          if user.is_disabled
          then some (db, ([], false, [], []))
          else elim (update_user
              (record user {
                last_login = now;
                last_active_ip_address = ip_address;
                session_id = new_session_id;
              })
              db) [
                | none ↦ again
                | some db' ↦
                    some (db', (user.username, user.is_admin, new_session_id, new_session_id))
              ]
    ]

module _ (argon2 : Text → Text → Text) where
  unfoldable pub login : Text → Text → Database → LoginResult × Text
  unfolding get_user
  login name password db = elim (get_user name db.users) [
    | none ↦ (invalid_username, [])
    | some user ↦
        if user.is_disabled
        then (account_disabled, [])
        else (if not (text_eq user.password_hash (argon2 password user.password_salt))
            then (invalid_password, [])
            else (if not (is_empty user.totp_key)
                then (two_factor_required, user.totp_key)
                else (success, [])))
  ]

  unfoldable pub change_password : Text → Text → Text → Database → Option (Database × Bool)
  unfolding get_user update_user
  change_password name old_password new_password db = elim (get_user name db.users) [
    | none ↦ some (db, false)
    | some user ↦
        if not (text_eq user.password_hash (argon2 old_password user.password_salt))
        then some (db, false)
        else (update_user (record user { password_hash = argon2 new_password user.password_salt })
              db
            >>= λ db'. some (db', true))
  ]

  -- The row of a new account.
  abbrev pub new_user : Text → Text → Option Text → Text → Text → ℕ → Bool → User
  new_user name password totp_key ip_address salt now is_admin = record {
    id = 0;
    username = name;
    password_hash = argon2 password salt;
    password_salt = salt;
    totp_key = elim totp_key [ none ↦ [] | some key ↦ key ];
    session_id = [];
    registration_date = now;
    registration_ip_address = ip_address;
    last_active_ip_address = ip_address;
    last_login = now;
    last_failed_login = none;
    last_online = now;
    failed_logins = 0;
    is_admin = is_admin;
    is_disabled = false;
  }

  unfoldable pub create_account :
      Text
      → Text
      → Option Text
      → Option Text
      → Text
      → Text
      → ℕ
      → Database
      → Option (Database × RegisterAccountError)
  unfolding create_user is_username_taken
  create_account name password totp_key (some invite_id) ip_address salt now db =
      if not (any (open_invite invite_id) db.invites)
      then some (db, invite_invalid)
      else (let db' = record db { invites = accept invite_id db.invites } in
          find_invite (λ i. text_eq i.id invite_id) db'.invites >>= λ i. some (
            create_user (new_user name password totp_key ip_address salt now i.is_admin) db',
            registered,
          ))
  create_account name password totp_key none ip_address salt now db =
      if is_username_taken name db
      then some (db, username_taken)
      else some (
        create_user
            (new_user name password totp_key ip_address salt now
              (elim db.users [ [] ↦ true | u ∷ us ↦ false ]))
            db,
        registered,
      )
