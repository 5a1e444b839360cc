-- ===== src/Auth/Reach.antt =====
-- CollabVmServer.hpp: the states that registrations, logins and guests bring about.
use collab_vm_server.Base.{
  ℕ, ◌≡◌, refl, sym, subst, ◌∙◌, Bool, false, Option, none, some, [], List, is_empty, ◌>>=◌,
  >>=-eq-some, Bool-cases, inl, inr,
}
use collab_vm_server.Message.{Text}
use collab_vm_server.Accounts.{Database}
use collab_vm_server.Totp.{validate_totp}
use collab_vm_server.Auth.{
  Socket, Auth, Registration, Surroundings, set_socket, login_request, change_password_request,
  registration_request, two_factor_response,
}
use collab_vm_server.Auth.Rows.{Keyed}
use collab_vm_server.Auth.Grants.{Holds, AuthInv, set_socket-AuthInv, some_cc}
use collab_vm_server.Auth.Requests.{login_request-AuthInv, change_password_request-AuthInv}
use collab_vm_server.Auth.Registrations.{registration_request-AuthInv}

-- A client that has just connected.
abbrev pub new_socket : Socket
new_socket = record { username = []; is_logged_in = false; is_admin = false; totp_key = [] }

pub two_factor_response-same :
    (hmac : List ℕ → List ℕ → List ℕ) (c code now : ℕ) (s t : Auth)
    → two_factor_response hmac c code now s ≡ some t
    → s ≡ t
unfolding two_factor_response
two_factor_response-same hmac c code now s t h =
    elim (Bool-cases (is_empty (s.sockets c).totp_key)) [
      | inl e ↦
          let q : two_factor_response hmac c code now s ≡ none = rw e refl in
          absurd (cc (sym q ∙ h))
      | inr e ↦
          let checked : Option Bool = validate_totp hmac code (s.sockets c).totp_key 6 30 1 now in
          let q : two_factor_response hmac c code now s ≡ (checked >>= λ v. some s) = rw e refl in
          let (verdict, a, b) = >>=-eq-some {A = Bool} checked (λ v. some s) (sym q ∙ h) in
          some_cc s t b
    ]

module _ (argon2 : Text → Text → Text) (is_valid_username : Text → Bool)
    (hmac : List ℕ → List ℕ → List ℕ) where
  -- Clients that have not logged in take names as guests and lose them.
  pub data AuthReach : Auth → Type 0 where
    start :
        (db : Database) (allowed : Bool)
        → Keyed db
        → AuthReach (record {
          db = db;
          sockets = λ c. new_socket;
          sessions = [];
          allow_account_registration = allowed;
          replies = [];
        })
    names :
        (c : ℕ) (name : Text) {s : Auth}
        → AuthReach s
        → (s.sockets c).is_logged_in ≡ false
        → AuthReach (set_socket c (record (s.sockets c) { username = name }) s)
    logs_in :
        (c : ℕ) (captcha : Bool) (name password : Text) (e : Surroundings) {s t : Auth}
        → AuthReach s
        → login_request argon2 c captcha name password e s ≡ some t
        → AuthReach t
    answers :
        (c code now : ℕ) {s t : Auth}
        → AuthReach s
        → two_factor_response hmac c code now s ≡ some t
        → AuthReach t
    registers :
        (c : ℕ) (captcha : Bool) (r : Registration) (e : Surroundings) {s t : Auth}
        → AuthReach s
        → registration_request argon2 is_valid_username c captcha r e s ≡ some t
        → AuthReach t
    changes :
        (c : ℕ) (old new : Text) {s t : Auth}
        → AuthReach s
        → change_password_request argon2 c old new s ≡ some t
        → AuthReach t

  -- Whatever clients send to register, log in, answer for a second factor or change a password: a client
  -- that is logged in has an account of its name, a client with an administrator's right is logged in
  -- and has an account of its name with that right, every session is that of a client that is logged
  -- in, and the ids of the accounts are a key.
  pub AuthReach-AuthInv : (s : Auth) → AuthReach s → AuthInv s
  AuthReach-AuthInv s (start db allowed k) = record {
    keyed = k;
    holds = λ c. ((λ e. cc e), λ e. absurd (cc e));
    sessions = tt;
  }
  AuthReach-AuthInv t (names c name {s} r out) =
      let k = record (s.sockets c) { username = name } in
      let i = AuthReach-AuthInv s r in
      let h : Holds k s.db = ((λ x. absurd (cc (sym out ∙ x))), λ x. (i.holds c).1 x) in
      set_socket-AuthInv c k s h (λ x. x) i
  AuthReach-AuthInv t (logs_in c captcha name password e {s} r h) =
      login_request-AuthInv argon2 c captcha name password e s t (AuthReach-AuthInv s r) h
  AuthReach-AuthInv t (answers c code now {s} r h) =
      subst AuthInv (two_factor_response-same hmac c code now s t h) (AuthReach-AuthInv s r)
  AuthReach-AuthInv t (registers c captcha r e {s} reach h) =
      registration_request-AuthInv argon2 is_valid_username c captcha r e s t
        (AuthReach-AuthInv s reach) h
  AuthReach-AuthInv t (changes c old new {s} r h) =
      change_password_request-AuthInv argon2 c old new s t (AuthReach-AuthInv s r) h
