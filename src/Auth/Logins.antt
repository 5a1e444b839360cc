-- ===== src/Auth/Logins.antt =====
-- CollabVmServer.hpp and Database/Database.cpp: what a login needs.
use collab_vm_server.Base.{
  ℕ, ◌≡◌, ◌⊎◌, inl, inr, refl, sym, ap, ◌∙◌, Bool, true, false, none, some, List, [], ◌∷◌, ==_refl,
  is_empty, Bool-cases, Option-cases,
}
use collab_vm_server.Message.{Text, text_eq}
use collab_vm_server.Accounts.{
  User, Database, LoginResult, get_user, session_taken, update_user, replace, create_session,
  success, invalid_username, account_disabled, invalid_password, two_factor_required, login, any,
}
use collab_vm_server.Accounts.Rows.{text_eq→≡}
use collab_vm_server.Accounts.Sessions.{with_session}
use collab_vm_server.Auth.{
  Reply, login_session, login_result, login_captcha, Socket, Auth, Surroundings, reply, set_socket,
  set_session_id, open_session, login_request,
}
use collab_vm_server.Auth.Tables.{created_cc}
use collab_vm_server.Auth.Grants.{some_cc}

-- What `Login` has found when it answers `success`.
abbrev pub Matches : (Text → Text → Text) → Text → Text → Database → Type 0
Matches argon2 name password db =
    (u : User) × (get_user name db.users ≡ some u)
    × (u.is_disabled ≡ false)
    × (u.password_hash ≡ argon2 password u.password_salt)
    × (is_empty u.totp_key ≡ true)

result_cc : (r r' : LoginResult) (k k' : Text) → Path (LoginResult × Text) (r, k) (r', k') → r ≡ r'
result_cc r r' k k' e = cc

module _ (argon2 : Text → Text → Text) where
  pub login-Matches :
      (name password key : Text) (db : Database)
      → login argon2 name password db ≡ (success, key)
      → Matches argon2 name password db
  unfolding login
  login-Matches name password key db h = elim (Option-cases (get_user name db.users)) [
    | inl a ↦
        let q : login argon2 name password db ≡ (invalid_username, []) = rw (a, login) refl in
        absurd (cc (result_cc invalid_username success [] key (sym q ∙ h)))
    | inr (u, a) ↦ elim (Bool-cases u.is_disabled) [
      | inl d ↦
          let q : login argon2 name password db ≡ (account_disabled, []) =
            rw (a, login) (rw d refl) in
          absurd (cc (result_cc account_disabled success [] key (sym q ∙ h)))
      | inr d ↦ elim (Bool-cases (text_eq u.password_hash (argon2 password u.password_salt))) [
        | inr wrong ↦
            let q : login argon2 name password db ≡ (invalid_password, []) =
              rw (a, login) (rw (d, wrong) refl) in
            absurd (cc (result_cc invalid_password success [] key (sym q ∙ h)))
        | inl right ↦ elim (Bool-cases (is_empty u.totp_key)) [
          | inr k ↦
              let q : login argon2 name password db ≡ (two_factor_required, u.totp_key) =
                rw (a, login) (rw (d, right, k) refl) in
              absurd (cc (result_cc two_factor_required success u.totp_key key (sym q ∙ h)))
          | inl k ↦ (u, a, d, text_eq→≡ u.password_hash (argon2 password u.password_salt) right, k)
        ]
      ]
    ]
  ]

-- A session is opened for the account that the name finds, with its spelling and its right.
pub create_session-user :
    (ids : List Text) (now : ℕ) (name ip : Text) (db db' : Database) (u : User) (n : Text)
    (admin : Bool) (old new : Text)
    → get_user name db.users ≡ some u
    → u.is_disabled ≡ false
    → create_session ids now name ip db ≡ some (db', (n, admin, old, new))
    → (u.username ≡ n) × (u.is_admin ≡ admin)
unfolding create_session update_user
create_session-user [] now name ip db db' u n admin old new a d e = absurd (cc)
create_session-user (id ∷ ids) now name ip db db' u n admin old new a d e =
    elim (Bool-cases (session_taken (with_session now ip id u) db.users)) [
      | inl t ↦
          let q : create_session (id ∷ ids) now name ip db ≡ create_session ids now name ip db =
            rw (a, create_session) (rw (d, t) refl) in
          create_session-user ids now name ip db db' u n admin old new a d (sym q ∙ e)
      | inr f ↦
          let after = record db { users = replace (with_session now ip id u) db.users } in
          let q : create_session (id ∷ ids) now name ip db
              ≡ some (after, (u.username, u.is_admin, id, id)) =
            rw (a, create_session) (rw (d, f) refl) in
          let (d', n', a') =
            created_cc after db' u.username n u.is_admin admin id old id new (sym q ∙ e) in
          (n', a')
    ]

pub set_socket_self : (c : ℕ) (k : Socket) (s : Auth) → (set_socket c k s).sockets c ≡ k
set_socket_self c k s = rw (==_refl c) refl

pub set_session_id-sockets :
    (id : Text) (c : ℕ) (s : Auth) → (set_session_id id c s).sockets ≡ s.sockets
set_session_id-sockets id c s = elim (Bool-cases (any (λ e. text_eq e.0 id) s.sessions)) [
  | inl e ↦ rw e refl
  | inr e ↦ rw e refl
]

-- The client as the account's.
abbrev pub logged_in_as : User → Socket → Socket
logged_in_as u k = record k { username = u.username; is_logged_in = true; is_admin = u.is_admin }

open_session-user :
    (c : ℕ) (name : Text) (e : Surroundings) (callback : Text → Text → Bool → Reply) (s t : Auth)
    (u : User)
    → get_user name s.db.users ≡ some u
    → u.is_disabled ≡ false
    → open_session c name e callback s ≡ some t
    → (t.sockets c ≡ s.sockets c) ⊎ (t.sockets c ≡ logged_in_as u (s.sockets c))
unfolding open_session
open_session-user c name e callback s t u found d h =
    elim (Option-cases (create_session e.ids e.now name e.ip_address s.db)) [
      | inl a ↦
          let q : open_session c name e callback s ≡ none = rw (a, open_session) refl in
          absurd (cc (sym q ∙ h))
      | inr ((db', (n, admin, old, new)), a) ↦
          let s1 = record s { db = db' } in
          let (n', a') =
            create_session-user e.ids e.now name e.ip_address s.db db' u n admin old new found d
              a in
          elim (Bool-cases (is_empty n)) [
            | inl y ↦
                let q : open_session c name e callback s ≡ some s1 =
                  rw (a, open_session) (rw y refl) in
                inl (ap (λ (x : Auth). x.sockets c) (sym (some_cc s1 t (sym q ∙ h))))
            | inr y ↦
                let k = record (s.sockets c) {
                  username = n;
                  is_logged_in = true;
                  is_admin = admin;
                } in
                let s2 = set_socket c k s1 in
                let s3 = reply c (callback n new admin) (set_session_id new c s2) in
                let q : open_session c name e callback s ≡ some s3 =
                  rw (a, open_session) (rw y refl) in
                inr (
                  ap (λ (x : Auth). x.sockets c) (sym (some_cc s3 t (sym q ∙ h)))
                  ∙ ap (λ (f : ℕ → Socket). f c) (set_session_id-sockets new c s2)
                  ∙ set_socket_self c k s1
                  ∙ sym (rw (n', a') refl))
          ]
    ]

module _ (argon2 : Text → Text → Text) where
  -- One attempt to log in leaves the client as it is but for the key of its second factor, or it has the
  -- password of an account that is not disabled and has no second factor, and the client is that
  -- account's.
  attempt :
      (c : ℕ) (name password : Text) (e : Surroundings) (s t : Auth)
      → login_request argon2 c true name password e s ≡ some t
      → ((t.sockets c).is_logged_in ≡ (s.sockets c).is_logged_in)
        ⊎ ((u : User) × (get_user name s.db.users ≡ some u)
            × (u.is_disabled ≡ false)
            × (u.password_hash ≡ argon2 password u.password_salt)
            × (is_empty u.totp_key ≡ true)
            × (t.sockets c ≡ logged_in_as u (s.sockets c)))
  unfolding login_request
  attempt c name password e s t h =
      by_result (login argon2 name password s.db).0 (login argon2 name password s.db).1 refl h
    where
      unchanged :
          (r : Reply)
          → some (reply c r s) ≡ some t
          → ((t.sockets c).is_logged_in ≡ (s.sockets c).is_logged_in)
      unchanged r h =
          ap (λ (x : Auth). (x.sockets c).is_logged_in) (sym (some_cc (reply c r s) t h))

      by_result :
          (r : LoginResult) (key : Text)
          → login argon2 name password s.db ≡ (r, key)
          → elim r [
            | success ↦ open_session c name e (λ n id is_admin. login_session id n is_admin) s
            | two_factor_required ↦ some (
                reply c
                  (login_result two_factor_required)
                  (set_socket c (record (s.sockets c) { totp_key = key }) s))
            | invalid_username ↦ some (reply c (login_result invalid_username) s)
            | account_disabled ↦ some (reply c (login_result account_disabled) s)
            | invalid_password ↦ some (reply c (login_result invalid_password) s)
          ]
            ≡ some t
          → ((t.sockets c).is_logged_in ≡ (s.sockets c).is_logged_in)
            ⊎ ((u : User) × (get_user name s.db.users ≡ some u)
                × (u.is_disabled ≡ false)
                × (u.password_hash ≡ argon2 password u.password_salt)
                × (is_empty u.totp_key ≡ true)
                × (t.sockets c ≡ logged_in_as u (s.sockets c)))
      by_result success key l h =
          let (u, a, d, p, k) = login-Matches argon2 name password key s.db l in
          elim (open_session-user c name e (λ n id is_admin. login_session id n is_admin) s t u a d
            h) [
              | inl same ↦ inl (ap (λ (x : Socket). x.is_logged_in) same)
              | inr r ↦ inr (u, a, d, p, k, r)
            ]
      by_result two_factor_required key l h =
          let k = record (s.sockets c) { totp_key = key } in
          inl (
            ap (λ (x : Auth). (x.sockets c).is_logged_in) (sym (some_cc _ t h))
            ∙ ap (λ (x : Socket). x.is_logged_in) (set_socket_self c k s))
      by_result invalid_username key l h = inl (unchanged (login_result invalid_username) h)
      by_result account_disabled key l h = inl (unchanged (login_result account_disabled) h)
      by_result invalid_password key l h = inl (unchanged (login_result invalid_password) h)

  -- A client that was not logged in and is so after LOGIN_REQUEST has solved the captcha and given the
  -- password of an account that is not disabled and asks for no second factor; the client then has
  -- the account's name and right.
  pub login_request_sound :
      (c : ℕ) (captcha : Bool) (name password : Text) (e : Surroundings) (s t : Auth)
      → (s.sockets c).is_logged_in ≡ false
      → login_request argon2 c captcha name password e s ≡ some t
      → (t.sockets c).is_logged_in ≡ true
      → (captcha ≡ true)
        × ((u : User) × (get_user name s.db.users ≡ some u)
            × (u.is_disabled ≡ false)
            × (u.password_hash ≡ argon2 password u.password_salt)
            × (is_empty u.totp_key ≡ true)
            × (t.sockets c ≡ logged_in_as u (s.sockets c)))
  unfolding login_request
  login_request_sound c false name password e s t out h now_in = absurd (
      cc (
        sym out
        ∙ ap (λ (x : Auth). (x.sockets c).is_logged_in) (some_cc (reply c login_captcha s) t h)
        ∙ now_in))
  login_request_sound c true name password e s t out h now_in =
      elim (attempt c name password e s t h) [
        | inl same ↦ absurd (cc (sym out ∙ sym same ∙ now_in))
        | inr r ↦ (refl, r)
      ]
