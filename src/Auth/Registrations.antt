-- ===== src/Auth/Registrations.antt =====
-- CollabVmServer.hpp: a registration keeps `AuthInv`.
use collab_vm_server.Base.{
  ℕ, ◌≡◌, inl, inr, refl, sym, subst, ◌∙◌, Bool, true, false, not, ◌||◌, Option, none, some, ◌==◌,
  if◌then◌else◌, is_empty, Bool-cases, Option-cases, length, ltb,
}
use collab_vm_server.Message.{Text}
use collab_vm_server.Accounts.{
  RegisterAccountError, registered, username_taken, invite_invalid, create_account, validate_invite,
}
use collab_vm_server.Auth.{
  registration_session, registration_refused, from_database, username_invalid, password_invalid,
  totp_error, registration_captcha, Auth, Registration, RegistrationError, Surroundings, reply,
  open_session, create_account_and_session, check_password_and_token, register,
  registration_request, max_password_len, totp_key_len, invite_id_len,
}
use collab_vm_server.Auth.Tables.{create_account-Grows}
use collab_vm_server.Auth.Grants.{
  AuthInv, reply-AuthInv, grow-AuthInv, some_cc, open_session-AuthInv,
}

module _ (argon2 : Text → Text → Text) where
  create_account_and_session-AuthInv :
      (c : ℕ) (name password : Text) (totp_key invite_id : Option Text) (e : Surroundings)
      (s t : Auth)
      → AuthInv s
      → create_account_and_session argon2 c name password totp_key invite_id e s ≡ some t
      → AuthInv t
  unfolding create_account_and_session
  create_account_and_session-AuthInv c name password totp_key invite_id e s t i h =
      elim (Option-cases
        (create_account argon2 name password totp_key invite_id e.ip_address e.salt e.now s.db)) [
          | inl a ↦
              let q : create_account_and_session argon2 c name password totp_key invite_id e s
                  ≡ none =
                rw (a, create_account_and_session) refl in
              absurd (cc (sym q ∙ h))
          | inr ((db', result), a) ↦
              let grown =
                create_account-Grows argon2 name password totp_key invite_id e.ip_address e.salt
                  e.now s.db db' result a in
              answered result c name e (record s { db = db' }) t (grow-AuthInv db' s grown i)
                (sym (rw (a, create_account_and_session) refl) ∙ h)
        ]
    where
      answered :
          (result : RegisterAccountError) (c : ℕ) (name : Text) (e : Surroundings) (s t : Auth)
          → AuthInv s
          → elim result [
            | registered ↦ open_session c name e (λ n id is_admin. registration_session id n) s
            | invite_invalid ↦
                some (reply c (registration_refused (from_database invite_invalid)) s)
            | username_taken ↦
                some (reply c (registration_refused (from_database username_taken)) s)
          ]
            ≡ some t
          → AuthInv t
      answered registered c name e s t i h =
          open_session-AuthInv c name e (λ n id is_admin. registration_session id n) s t i h
      answered invite_invalid c name e s t i h =
          subst AuthInv (some_cc _ t h)
            (reply-AuthInv c (registration_refused (from_database invite_invalid)) s i)
      answered username_taken c name e s t i h =
          subst AuthInv (some_cc _ t h)
            (reply-AuthInv c (registration_refused (from_database username_taken)) s i)

  refuse :
      (c : ℕ) (r : RegistrationError) (s t : Auth)
      → AuthInv s
      → some (reply c (registration_refused r) s) ≡ some t
      → AuthInv t
  refuse c r s t i h = subst AuthInv (some_cc _ t h) (reply-AuthInv c (registration_refused r) s i)

  check_password_and_token-AuthInv :
      (c : ℕ) (name : Text) (r : Registration) (e : Surroundings) (s t : Auth)
      → AuthInv s
      → check_password_and_token argon2 c name r e s ≡ some t
      → AuthInv t
  unfolding check_password_and_token
  check_password_and_token-AuthInv c name r e s t i h =
      elim (Bool-cases (ltb max_password_len (length r.password))) [
        | inl long ↦
            let q : check_password_and_token argon2 c name r e s
                ≡ some (reply c (registration_refused password_invalid) s) =
              rw long refl in
            refuse c password_invalid s t i (sym q ∙ h)
        | inr short ↦ token r.two_factor_token (sym (rw short refl) ∙ h)
      ]
    where
      token :
          (two_factor_token : Option Text)
          → elim two_factor_token [
            | none ↦
                create_account_and_session argon2 c name r.password none
                  (if is_empty r.invite_id then none else some r.invite_id)
                  e
                  s
            | some token ↦
                if not (length token == totp_key_len)
                then some (reply c (registration_refused totp_error) s)
                else create_account_and_session argon2 c name r.password
                    (some token)
                    (if is_empty r.invite_id then none else some r.invite_id)
                    e
                    s
          ]
            ≡ some t
          → AuthInv t
      token none h =
          create_account_and_session-AuthInv c name r.password none
            (if is_empty r.invite_id then none else some r.invite_id) e s t i h
      token (some key) h = elim (Bool-cases (length key == totp_key_len)) [
        | inr bad ↦ refuse c totp_error s t i (sym (rw bad refl) ∙ h)
        | inl good ↦
            create_account_and_session-AuthInv c name r.password (some key)
              (if is_empty r.invite_id then none else some r.invite_id) e s t i
              (sym (rw good refl) ∙ h)
      ]

  module _ (is_valid_username : Text → Bool) where
    invited :
        (c : ℕ) (r : Registration) (e : Surroundings) (s t : Auth) (refuses : Bool) (name : Text)
        → AuthInv s
        → (if refuses
            then some (reply c (registration_refused (from_database invite_invalid)) s)
            else check_password_and_token argon2 c name r e s)
          ≡ some t
        → AuthInv t
    invited c r e s t true name i h = refuse c (from_database invite_invalid) s t i h
    invited c r e s t false name i h = check_password_and_token-AuthInv c name r e s t i h

    uninvited :
        (c : ℕ) (r : Registration) (e : Surroundings) (s t : Auth) (open_to_all is_valid : Bool)
        → AuthInv s
        → (if open_to_all
            then (if not is_valid
                then some (reply c (registration_refused username_invalid) s)
                else check_password_and_token argon2 c r.username r e s)
            else some s)
          ≡ some t
        → AuthInv t
    uninvited c r e s t true true i h = check_password_and_token-AuthInv c r.username r e s t i h
    uninvited c r e s t true false i h = refuse c username_invalid s t i h
    uninvited c r e s t false is_valid i h = subst AuthInv (some_cc s t h) i

    register-AuthInv :
        (c : ℕ) (r : Registration) (e : Surroundings) (s t : Auth)
        → AuthInv s
        → register argon2 is_valid_username c r e s ≡ some t
        → AuthInv t
    unfolding register
    register-AuthInv c r e s t i h = elim (Bool-cases (is_empty r.invite_id)) [
      | inl n ↦
          uninvited c r e s t s.allow_account_registration (is_valid_username r.username) i
            (sym (rw n refl) ∙ h)
      | inr n ↦ elim (Bool-cases (length r.invite_id == invite_id_len)) [
        | inr bad ↦
            let q : register argon2 is_valid_username c r e s ≡ none = rw (n, bad) refl in
            absurd (cc (sym q ∙ h))
        | inl good ↦
            let v = validate_invite r.invite_id s.db in
            invited c r e s t
              (not v.0 || not ((if is_empty v.1 then 1 else 0) == length r.username)) v.1 i
              (sym (rw (n, good) refl) ∙ h)
      ]
    ]

    pub registration_request-AuthInv :
        (c : ℕ) (captcha : Bool) (r : Registration) (e : Surroundings) (s t : Auth)
        → AuthInv s
        → registration_request argon2 is_valid_username c captcha r e s ≡ some t
        → AuthInv t
    unfolding registration_request
    registration_request-AuthInv c captcha r e s t i h =
        elim (Bool-cases (not (is_empty r.invite_id) || captcha)) [
          | inl go ↦ register-AuthInv c r e s t i (sym (rw go refl) ∙ h)
          | inr stop ↦ refuse c registration_captcha s t i (sym (rw stop refl) ∙ h)
        ]
