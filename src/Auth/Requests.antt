-- ===== src/Auth/Requests.antt =====
-- CollabVmServer.hpp: logging in and changing a password keep `AuthInv`.
use collab_vm_server.Base.{
  ℕ, ◌≡◌, inl, inr, refl, sym, subst, ◌∙◌, Bool, true, false, none, some, Bool-cases, Option-cases,
}
use collab_vm_server.Message.{Text}
use collab_vm_server.Accounts.{
  LoginResult, success, invalid_username, account_disabled, invalid_password, two_factor_required,
  login, change_password,
}
use collab_vm_server.Auth.{
  login_session, login_result, login_captcha, password_changed, Auth, Surroundings, reply,
  set_socket, open_session, login_request, change_password_request,
}
use collab_vm_server.Auth.Tables.{change_password-Grows}
use collab_vm_server.Auth.Grants.{
  AuthInv, reply-AuthInv, grow-AuthInv, set_socket-AuthInv, some_cc, open_session-AuthInv,
}

module _ (argon2 : Text → Text → Text) where
  login-AuthInv :
      (result : LoginResult) (c : ℕ) (totp_key name : Text) (e : Surroundings) (s t : Auth)
      → AuthInv s
      → elim result [
        | success ↦ open_session c name e (λ n id is_admin. login_session id n is_admin) s
        | two_factor_required ↦ some (
            reply c
              (login_result two_factor_required)
              (set_socket c (record (s.sockets c) { totp_key = totp_key }) s))
        | invalid_username ↦ some (reply c (login_result invalid_username) s)
        | account_disabled ↦ some (reply c (login_result account_disabled) s)
        | invalid_password ↦ some (reply c (login_result invalid_password) s)
      ]
        ≡ some t
      → AuthInv t
  login-AuthInv success c totp_key name e s t i h =
      open_session-AuthInv c name e (λ n id is_admin. login_session id n is_admin) s t i h
  login-AuthInv two_factor_required c totp_key name e s t i h =
      let k = record (s.sockets c) { totp_key = totp_key } in
      subst AuthInv (some_cc _ t h) (
        reply-AuthInv c (login_result two_factor_required) (set_socket c k s)
          (set_socket-AuthInv c k s (i.holds c) (λ x. x) i))
  login-AuthInv invalid_username c totp_key name e s t i h =
      subst AuthInv (some_cc _ t h) (reply-AuthInv c (login_result invalid_username) s i)
  login-AuthInv account_disabled c totp_key name e s t i h =
      subst AuthInv (some_cc _ t h) (reply-AuthInv c (login_result account_disabled) s i)
  login-AuthInv invalid_password c totp_key name e s t i h =
      subst AuthInv (some_cc _ t h) (reply-AuthInv c (login_result invalid_password) s i)

  pub login_request-AuthInv :
      (c : ℕ) (captcha : Bool) (name password : Text) (e : Surroundings) (s t : Auth)
      → AuthInv s
      → login_request argon2 c captcha name password e s ≡ some t
      → AuthInv t
  unfolding login_request
  login_request-AuthInv c false name password e s t i h =
      subst AuthInv (some_cc _ t h) (reply-AuthInv c login_captcha s i)
  login_request-AuthInv c true name password e s t i h =
      login-AuthInv ((login argon2 name password s.db).0) c ((login argon2 name password s.db).1)
        name e s t i h

  pub change_password_request-AuthInv :
      (c : ℕ) (old new : Text) (s t : Auth)
      → AuthInv s
      → change_password_request argon2 c old new s ≡ some t
      → AuthInv t
  unfolding change_password_request
  change_password_request-AuthInv c old new s t i h = elim (Bool-cases (s.sockets c).is_logged_in) [
    | inr out ↦ subst AuthInv (some_cc s t (sym (rw out refl) ∙ h)) i
    | inl here ↦
        let name = (s.sockets c).username in
        elim (Option-cases (change_password argon2 name old new s.db)) [
          | inl a ↦
              let q : change_password_request argon2 c old new s ≡ none =
                rw (here, change_password_request) (rw a refl) in
              absurd (cc (sym q ∙ h))
          | inr ((db', changed), a) ↦
              subst AuthInv
                (some_cc (reply c (password_changed changed) (record s { db = db' })) t
                  (sym (rw (here, a) refl) ∙ h))
                (reply-AuthInv c (password_changed changed) (record s { db = db' })
                  (grow-AuthInv db' s
                    (change_password-Grows argon2 name old new s.db db' changed i.keyed a) i))
        ]
  ]
