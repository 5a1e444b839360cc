-- ===== src/Auth.antt =====
-- CollabVmServer.hpp: accounts and clients: registration, login, the second factor, the change of a
-- password and `CreateSession`. A socket is a number, the captcha's verdict is an argument, and so are
-- Argon2, HMAC and `ValidateUsername` of Common. A request runs to its end before the next one. `none`
-- is an exception, a broken contract of a span or of an empty vector, or that the random bytes have
-- run out. What a new name changes in the channels is `Channel.update_username`.
pub mod Rows
pub mod Tables
pub mod Grants
pub mod Requests
pub mod Registrations
pub mod Reach
pub mod Logins
pub mod Factors
pub mod Nameless
pub mod Opened
mod Examples
use collab_vm_server.Base.{
  ℕ, Bool, true, false, not, ◌&&◌, ◌||◌, Option, none, some, List, [], ◌∷◌, ◌++◌, length, ltb, ◌==◌,
  update, is_empty, if◌then◌else◌, ◌>>=◌,
}
use collab_vm_server.Message.{Text, text_eq}
use collab_vm_server.Accounts.{
  Database, RegisterAccountError, registered, invite_invalid, username_taken, LoginResult, success,
  invalid_username, account_disabled, invalid_password, two_factor_required, any, validate_invite,
  create_session, login, change_password, create_account,
}
use collab_vm_server.Totp.{validate_totp}

pub data RegistrationError : Type 0 where
  -- What the database answers.
  from_database : RegisterAccountError → RegistrationError
  username_invalid password_invalid totp_error registration_captcha : RegistrationError

pub data Reply : Type 0 where
  -- The session id, the name and whether it is an administrator.
  login_session : Text → Text → Bool → Reply
  login_result : LoginResult → Reply
  login_captcha : Reply
  registration_session : Text → Text → Reply
  registration_refused : RegistrationError → Reply
  password_changed : Bool → Reply

pub record Socket : Type 0 where
  pub username : Text
  pub is_logged_in : Bool
  pub is_admin : Bool
  pub totp_key : Text

pub record Auth : Type 0 where
  pub db : Database
  pub sockets : ℕ → Socket
  pub sessions : List (Text × ℕ)
  pub allow_account_registration : Bool
  pub replies : List (ℕ × Reply)

pub record Registration : Type 0 where
  pub username : Text
  pub password : Text
  pub invite_id : Text
  pub two_factor_token : Option Text

-- What a client that connects finds: the random bytes, the time, its address and the salt.
pub record Surroundings : Type 0 where
  pub ids : List Text
  pub now : ℕ
  pub ip_address : Text
  pub salt : Text

abbrev pub max_password_len : ℕ
max_password_len = 160

abbrev pub invite_id_len : ℕ
invite_id_len = 32

abbrev pub totp_key_len : ℕ
totp_key_len = 20

abbrev pub reply : ℕ → Reply → Auth → Auth
reply c r s = record s { replies = s.replies ++ (c, r) ∷ [] }

abbrev pub set_socket : ℕ → Socket → Auth → Auth
set_socket c k s = record s { sockets = update s.sockets c k }

-- `emplace` leaves a key that is there; the assertion behind it is off in a release build.
abbrev pub set_session_id : Text → ℕ → Auth → Auth
set_session_id id c s =
    if any (λ e. text_eq e.0 id) s.sessions
    then s
    else record s { sessions = s.sessions ++ (id, c) ∷ [] }

-- The callback makes the reply of the name, the id and the right. `InvalidateSession` does nothing.
unfoldable pub open_session :
    ℕ → Text → Surroundings → (Text → Text → Bool → Reply) → Auth → Option Auth
open_session c name e callback s =
    create_session e.ids e.now name e.ip_address s.db
    >>= λ (db', (correct_username, is_admin, old_session_id, new_session_id)).
        let s1 = record s { db = db' } in
        if is_empty correct_username
        then some s1
        else some (
            reply c (callback correct_username new_session_id is_admin) (
              set_session_id new_session_id c (
                set_socket c
                  (record (s.sockets c) {
                    username = correct_username;
                    is_logged_in = true;
                    is_admin = is_admin;
                  })
                  s1)))

module _ (argon2 : Text → Text → Text) where
  unfoldable pub login_request : ℕ → Bool → Text → Text → Surroundings → Auth → Option Auth
  login_request c false name password e s = some (reply c login_captcha s)
  login_request c true name password e s =
      let (result, totp_key) = login argon2 name password s.db in
      elim result [
        | success ↦ open_session c name e (λ n id is_admin. login_session id n is_admin) s
        | two_factor_required ↦ some (
            reply c (login_result two_factor_required)
              (set_socket c (record (s.sockets c) { totp_key = totp_key }) s))
        | invalid_username ↦ some (reply c (login_result invalid_username) s)
        | account_disabled ↦ some (reply c (login_result account_disabled) s)
        | invalid_password ↦ some (reply c (login_result invalid_password) s)
      ]

  unfoldable pub change_password_request : ℕ → Text → Text → Auth → Option Auth
  change_password_request c old_password new_password s =
      if (s.sockets c).is_logged_in
      then (change_password argon2 (s.sockets c).username old_password new_password s.db
          >>= λ (db', changed). some (reply c (password_changed changed) (record s { db = db' })))
      else some s

  -- The account is created once the name, the password and the token have passed.
  unfoldable pub create_account_and_session :
      ℕ → Text → Text → Option Text → Option Text → Surroundings → Auth → Option Auth
  create_account_and_session c name password totp_key invite_id e s =
      create_account argon2 name password totp_key invite_id e.ip_address e.salt e.now s.db
      >>= λ (db', result).
          let s1 = record s { db = db' } in
          elim result [
            | registered ↦ open_session c name e (λ n id is_admin. registration_session id n) s1
            | invite_invalid ↦
                some (reply c (registration_refused (from_database invite_invalid)) s1)
            | username_taken ↦
                some (reply c (registration_refused (from_database username_taken)) s1)
          ]

  -- The checks of the password and the token, for a name that has passed.
  unfoldable pub check_password_and_token :
      ℕ → Text → Registration → Surroundings → Auth → Option Auth
  unfolding create_account_and_session
  check_password_and_token c valid_username r e s =
      let invite_span = if is_empty r.invite_id then none else some r.invite_id in
      if ltb max_password_len (length r.password)
      then some (reply c (registration_refused password_invalid) s)
      else elim r.two_factor_token [
        | none ↦ create_account_and_session c valid_username r.password none invite_span e s
        | some token ↦
            if not (length token == totp_key_len)
            then some (reply c (registration_refused totp_error) s)
            else create_account_and_session c valid_username r.password (some token) invite_span e s
      ]

  module _ (is_valid_username : Text → Bool) where
    -- The inner `create_account`. `valid_username.empty() ^ requested_username.size()` is the
    -- exclusive or of two numbers, which is 0 if they are equal.
    unfoldable pub register : ℕ → Registration → Surroundings → Auth → Option Auth
    unfolding check_password_and_token
    register c r e s =
        if not (is_empty r.invite_id)
        then if not (length r.invite_id == invite_id_len)
          then none
          else (let (is_valid, valid_username) = validate_invite r.invite_id s.db in
              let is_nameless : ℕ = if is_empty valid_username then 1 else 0 in
              if not is_valid || not (is_nameless == length r.username)
              then some (reply c (registration_refused (from_database invite_invalid)) s)
              else check_password_and_token c valid_username r e s)
        else if s.allow_account_registration
        then (if not (is_valid_username r.username)
            then some (reply c (registration_refused username_invalid) s)
            else check_password_and_token c r.username r e s)
        else some s

    -- No captcha is asked for with an invitation.
    unfoldable pub registration_request :
        ℕ → Bool → Registration → Surroundings → Auth → Option Auth
    unfolding register
    registration_request c is_valid r e s =
        if not (is_empty r.invite_id) || is_valid
        then register c r e s
        else some (reply c (registration_refused registration_captcha) s)

-- `TWO_FACTOR_RESPONSE`, with the defaults of `ValidateTotp`: the verdict is not used.
unfoldable pub two_factor_response : (List ℕ → List ℕ → List ℕ) → ℕ → ℕ → ℕ → Auth → Option Auth
two_factor_response hmac c code now s =
    if is_empty (s.sockets c).totp_key
    then none
    else validate_totp hmac code (s.sockets c).totp_key 6 30 1 now >>= λ verdict. some s
