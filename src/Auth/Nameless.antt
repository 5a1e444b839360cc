-- ===== src/Auth/Nameless.antt =====
-- CollabVmServer.hpp: a registration with an invitation that names nobody.
use collab_vm_server.Base.{
  ℕ, ◌≡◌, inl, inr, refl, sym, ap, subst, ◌∙◌, Bool, true, false, not, Option, none, some, List, [],
  ◌∷◌, ◌==◌, ltb, if◌then◌else◌, is_empty, length, arith, Bool-cases, Option-cases,
}
use collab_vm_server.Message.{Text}
use collab_vm_server.Accounts.{
  Database, RegisterAccountError, registered, invite_invalid, username_taken, validate_invite,
  create_session, create_account, get_user,
}
use collab_vm_server.Accounts.Rows.{get_user-name, text_eq→≡}
use collab_vm_server.Auth.Tables.{created_cc}
use collab_vm_server.Auth.Logins.{create_session-user}
use collab_vm_server.Auth.{
  Reply, registration_session, registration_refused, from_database, Auth, Registration,
  Surroundings, reply, open_session, create_account_and_session, check_password_and_token,
  invite_id_len, registration_request, max_password_len, password_invalid, totp_key_len, totp_error,
}
use collab_vm_server.Auth.Grants.{some_cc}

-- Nobody has been logged in, and nobody has got a session.
abbrev pub NoSession : Auth → Auth → Type 0
NoSession s t = (t.sockets ≡ s.sockets) × (t.sessions ≡ s.sessions)

same : (s t u : Auth) → some t ≡ some u → NoSession s t → NoSession s u
same s t u e h = subst (NoSession s) (some_cc t u e) h

-- A session for the empty name has the empty name.
create_session-empty :
    (ids : List Text) (now : ℕ) (ip : Text) (db db' : Database) (n : Text) (admin : Bool)
    (old new : Text)
    → create_session ids now [] ip db ≡ some (db', (n, admin, old, new))
    → [] ≡ n
unfolding create_session
create_session-empty [] now ip db db' n admin old new e = absurd (cc)
create_session-empty (id ∷ ids) now ip db db' n admin old new e =
    elim (Option-cases (get_user [] db.users)) [
      | inl a ↦
          let q : create_session (id ∷ ids) now [] ip db ≡ some (db, ([], false, [], [])) =
            rw (a, create_session) refl in
          (created_cc db db' [] n false admin [] old [] new (sym q ∙ e)).1
      | inr (u, a) ↦ elim (Bool-cases u.is_disabled) [
        | inl d ↦
            let q : create_session (id ∷ ids) now [] ip db ≡ some (db, ([], false, [], [])) =
              rw (a, create_session) (rw d refl) in
            (created_cc db db' [] n false admin [] old [] new (sym q ∙ e)).1
        | inr d ↦
            sym (text_eq→≡ u.username [] (get_user-name [] db.users u a))
            ∙ (create_session-user (id ∷ ids) now [] ip db db' u n admin old new a d e).0
      ]
    ]

open_session-empty :
    (c : ℕ) (e : Surroundings) (callback : Text → Text → Bool → Reply) (s t : Auth)
    → open_session c [] e callback s ≡ some t
    → NoSession s t
unfolding open_session
open_session-empty c e callback s t h =
    elim (Option-cases (create_session e.ids e.now [] e.ip_address s.db)) [
      | inl a ↦
          let q : open_session c [] e callback s ≡ none = rw (a, open_session) refl in
          absurd (cc (sym q ∙ h))
      | inr ((db', (n, admin, old, new)), a) ↦
          let z = create_session-empty e.ids e.now e.ip_address s.db db' n admin old new a in
          let q : open_session c [] e callback s ≡ some (record s { db = db' }) =
            rw (a, open_session) (rw (← z) refl) in
          same s (record s { db = db' }) t (sym q ∙ h) (refl, refl)
    ]

module _ (argon2 : Text → Text → Text) where
  create_account_and_session-empty :
      (c : ℕ) (password : Text) (totp_key invite_id : Option Text) (e : Surroundings) (s t : Auth)
      → create_account_and_session argon2 c [] password totp_key invite_id e s ≡ some t
      → NoSession s t
  unfolding create_account_and_session
  create_account_and_session-empty c password totp_key invite_id e s t h =
      elim (Option-cases
        (create_account argon2 [] password totp_key invite_id e.ip_address e.salt e.now s.db)) [
          | inl a ↦
              let q : create_account_and_session argon2 c [] password totp_key invite_id e s
                  ≡ none =
                rw (a, create_account_and_session) refl in
              absurd (cc (sym q ∙ h))
          | inr ((db', result), a) ↦
              answered result (record s { db = db' }) (refl, refl)
                (sym (rw (a, create_account_and_session) refl) ∙ h)
        ]
    where
      answered :
          (result : RegisterAccountError) (s1 : Auth)
          → NoSession s s1
          → elim result [
            | registered ↦ open_session c [] e (λ n id is_admin. registration_session id n) s1
            | invite_invalid ↦
                some (reply c (registration_refused (from_database invite_invalid)) s1)
            | username_taken ↦
                some (reply c (registration_refused (from_database username_taken)) s1)
          ]
            ≡ some t
          → NoSession s t
      answered registered s1 n h =
          let (a, b) = open_session-empty c e (λ n id is_admin. registration_session id n) s1 t h in
          (a ∙ n.0, b ∙ n.1)
      answered invite_invalid s1 n h = same s _ t h n
      answered username_taken s1 n h = same s _ t h n

  check_password_and_token-empty :
      (c : ℕ) (r : Registration) (e : Surroundings) (s t : Auth)
      → check_password_and_token argon2 c [] r e s ≡ some t
      → NoSession s t
  unfolding check_password_and_token
  check_password_and_token-empty c r e s t h =
      elim (Bool-cases (ltb max_password_len (length r.password))) [
        | inl long ↦
            same s (reply c (registration_refused password_invalid) s) t (sym (rw long refl) ∙ h)
              (refl, refl)
        | inr short ↦ token r.two_factor_token (sym (rw short refl) ∙ h)
      ]
    where
      token :
          (two_factor_token : Option Text)
          → elim two_factor_token [
            | none ↦
                create_account_and_session argon2 c [] r.password none
                  (if is_empty r.invite_id then none else some r.invite_id)
                  e
                  s
            | some token ↦
                if not (length token == totp_key_len)
                then some (reply c (registration_refused totp_error) s)
                else create_account_and_session argon2 c [] r.password
                    (some token)
                    (if is_empty r.invite_id then none else some r.invite_id)
                    e
                    s
          ]
            ≡ some t
          → NoSession s t
      token none h =
          create_account_and_session-empty c r.password none
            (if is_empty r.invite_id then none else some r.invite_id) e s t h
      token (some key) h = elim (Bool-cases (length key == totp_key_len)) [
        | inr bad ↦
            same s (reply c (registration_refused totp_error) s) t (sym (rw bad refl) ∙ h)
              (refl, refl)
        | inl good ↦
            create_account_and_session-empty c r.password (some key)
              (if is_empty r.invite_id then none else some r.invite_id) e s t
              (sym (rw good refl) ∙ h)
      ]

  module _ (is_valid_username : Text → Bool) where
    -- A registration with an open invitation that names nobody logs nobody in and opens no session,
    -- whatever name, password and token it gives.
    pub registration_request-nameless :
        (c : ℕ) (captcha : Bool) (r : Registration) (e : Surroundings) (s t : Auth)
        → length r.invite_id ≡ invite_id_len
        → validate_invite r.invite_id s.db ≡ (true, [])
        → registration_request argon2 is_valid_username c captcha r e s ≡ some t
        → NoSession s t
    unfolding registration_request
    registration_request-nameless c captcha r e s t len v h =
        let given : is_empty r.invite_id ≡ false = not_empty r.invite_id len in
        elim (Bool-cases (1 == length r.username)) [
          | inl one ↦ check_password_and_token-empty c r e s t (
              sym (
                rw (given, ap (λ n. n == invite_id_len) len, v, one)
                  (ap (λ (n : Text). check_password_and_token argon2 c n r e s)
                    (ap (λ (p : Bool × Text). p.1) v)))
              ∙ h)
          | inr other ↦
              same s (reply c (registration_refused (from_database invite_invalid)) s) t
                (sym (rw (given, ap (λ n. n == invite_id_len) len, v, other) refl) ∙ h) (refl, refl)
        ]
      where
        not_empty : (xs : Text) → length xs ≡ invite_id_len → is_empty xs ≡ false
        not_empty [] l = absurd (omega (arith, l))
        not_empty (x ∷ xs) l = refl
