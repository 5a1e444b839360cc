-- ===== src/Auth/Opened.antt =====
-- CollabVmServer.hpp: a registration that succeeds.
use collab_vm_server.Base.{
  ℕ, ◌≤◌, ◌≡◌, refl, ap, ◌∙◌, Bool, true, false, not, ◌&&◌, none, some, List, [], ◌∷◌, ◌++◌, ◌==◌,
  ltb, is_empty, length, arith, Bool-cases, inl, inr,
}
use collab_vm_server.Message.{Text, text_eq}
use collab_vm_server.Accounts.{
  User, registered, any, get_user, is_username_taken, replace, session_taken, create_session,
  create_user, new_user, create_account,
}
use collab_vm_server.Accounts.Rows.{get_user-last, text_eq_refl}
use collab_vm_server.Accounts.Sessions.{with_session}
use collab_vm_server.Auth.{
  Reply, registration_session, Socket, Auth, Registration, Surroundings, reply, set_socket,
  set_session_id, open_session, create_account_and_session, registration_request, max_password_len,
}
use collab_vm_server.Auth.Logins.{logged_in_as, set_session_id-sockets, set_socket_self}

-- No account has the session id.
abbrev pub unused : Text → List User → Bool
unused id us = not (any (λ u. text_eq u.session_id id) us)

unused-free :
    (id : Text) (u : User) (us : List User)
    → unused id us ≡ true
    → any
        (λ v. not (v.id == u.id) && text_eq v.session_id id)
        (us ++ record u { session_id = [] } ∷ [])
      ≡ false
unused-free id u [] h = ground arith
unused-free id u (v ∷ us) h = ground (arith, unused-free id u us)

set_session_id-replies :
    (id : Text) (c : ℕ) (s : Auth) → (set_session_id id c s).replies ≡ s.replies
set_session_id-replies id c s = elim (Bool-cases (any (λ e. text_eq e.0 id) s.sessions)) [
  | inl e ↦ rw e refl
  | inr e ↦ rw e refl
]

and_false : (b : Bool) → (b && false) ≡ false
and_false true = refl
and_false false = refl

is_first : (us : List User) → (elim us as (λ x. Bool) [ [] ↦ true | u ∷ us ↦ false ]) ≡ is_empty us
is_first [] = refl
is_first (u ∷ us) = refl

open_session-first :
    (c : ℕ) (name id : Text) (rest : List Text) (e : Surroundings)
    (callback : Text → Text → Bool → Reply) (s : Auth) (u : User)
    → e.ids ≡ id ∷ rest
    → get_user name s.db.users ≡ some u
    → u.is_disabled ≡ false
    → is_empty u.username ≡ false
    → session_taken (with_session e.now e.ip_address id u) s.db.users ≡ false
    → (t : Auth) × (open_session c name e callback s ≡ some t)
      × (t.sockets c ≡ logged_in_as u (s.sockets c))
      × (t.replies ≡ s.replies ++ (c, callback u.username id u.is_admin) ∷ [])
unfolding open_session create_session
open_session-first c name id rest e callback s u i a d n f =
    let db' = record s.db { users = replace (with_session e.now e.ip_address id u) s.db.users } in
    let made : create_session e.ids e.now name e.ip_address s.db
        ≡ some (db', (u.username, u.is_admin, id, id)) =
      ap (λ l. create_session l e.now name e.ip_address s.db) i
      ∙ rw (a, create_session) (rw (d, f) refl) in
    let s1 = record s { db = db' } in
    let s2 = set_socket c (logged_in_as u (s.sockets c)) s1 in
    (
      reply c (callback u.username id u.is_admin) (set_session_id id c s2),
      rw (made, open_session) (rw n refl),
      ap (λ (g : ℕ → Socket). g c) (set_session_id-sockets id c s2)
          ∙ set_socket_self c (logged_in_as u (s.sockets c)) s1,
      ap (λ l. l ++ (c, callback u.username id u.is_admin) ∷ []) (set_session_id-replies id c s2),
    )

module _ (argon2 : Text → Text → Text) (is_valid_username : Text → Bool) where
  -- What a registration without an invitation and a token comes down to.
  plain_request :
      (c : ℕ) (r : Registration) (e : Surroundings) (s : Auth)
      → is_empty r.invite_id ≡ true
      → s.allow_account_registration ≡ true
      → is_valid_username r.username ≡ true
      → ltb max_password_len (length r.password) ≡ false
      → r.two_factor_token ≡ none
      → registration_request argon2 is_valid_username c true r e s
        ≡ create_account_and_session argon2 c r.username r.password none none e s
  unfolding registration_request
  plain_request c r e s uninvited allowed valid short plain =
      rw (uninvited, allowed, valid, short) (rw (plain, uninvited) refl)

  -- A registration without an invitation, while registration is allowed, with the captcha solved, a valid
  -- name that is not empty and not taken, a password that is not too long, no token, and a first
  -- session id that no account has: the client is logged in under the name, as an administrator if
  -- it is the first account, and is sent the name and the session id.
  pub registration_request-opens :
      (c : ℕ) (r : Registration) (id : Text) (rest : List Text) (e : Surroundings) (s : Auth)
      → is_empty r.invite_id ≡ true
      → s.allow_account_registration ≡ true
      → is_valid_username r.username ≡ true
      → is_empty r.username ≡ false
      → length r.password ≤ max_password_len
      → r.two_factor_token ≡ none
      → is_username_taken r.username s.db ≡ false
      → e.ids ≡ id ∷ rest
      → unused id s.db.users ≡ true
      → (t : Auth) × (registration_request argon2 is_valid_username c true r e s ≡ some t)
        × (t.sockets c ≡ record (s.sockets c) {
          username = r.username;
          is_logged_in = true;
          is_admin = is_empty s.db.users;
        })
        × (t.replies ≡ s.replies ++ (c, registration_session id r.username) ∷ [])
  unfolding registration_request create_account create_user
  registration_request-opens c r id rest e s uninvited allowed valid named short plain free i new =
      let first : Bool = elim s.db.users [ [] ↦ true | u ∷ us ↦ false ] in
      let u = record (new_user argon2 r.username r.password none e.ip_address e.salt e.now first) {
        id = s.db.next_id;
      } in
      let db' =
        create_user (new_user argon2 r.username r.password none e.ip_address e.salt e.now first)
          s.db in
      let s1 = record s { db = db' } in
      let (t, opened, k, sent) =
        open_session-first c r.username id rest e (λ n id is_admin. registration_session id n) s1 u
          i (get_user-last r.username s.db.users u (text_eq_refl r.username)) refl named
          (rw (unused-free id u s.db.users new) (and_false (not (is_empty id)))) in
      let made : create_account argon2 r.username r.password none none e.ip_address e.salt e.now
            s.db
          ≡ some (db', registered) =
        rw (free, create_account) refl in
      let inner : create_account_and_session argon2 c r.username r.password none none e s ≡ some t =
        rw (made, create_account_and_session) opened in
      let short_enough : ltb max_password_len (length r.password) ≡ false = ground arith in
      (
        t,
        plain_request c r e s uninvited allowed valid short_enough plain ∙ inner,
        k
            ∙ ap
                (λ b. record (s.sockets c) {
                  username = r.username;
                  is_logged_in = true;
                  is_admin = b;
                })
                (is_first s.db.users),
        sent,
      )
