-- ===== src/Auth/Factors.antt =====
-- CollabVmServer.hpp: LOGIN_REQUEST and TWO_FACTOR_RESPONSE for an account with a second factor.
use collab_vm_server.Base.{
  ℕ, ◌≡◌, refl, sym, subst, ◌∙◌, Bool, true, false, Option, some, List, [], ◌∷◌, is_empty, ◌>>=◌,
  >>=-eq-some, All, ==_refl,
}
use collab_vm_server.Message.{Text}
use collab_vm_server.Accounts.{
  User, Database, LoginResult, get_user, success, invalid_username, account_disabled,
  invalid_password, two_factor_required, login,
}
use collab_vm_server.Auth.{
  login_session, login_result, login_captcha, Auth, Surroundings, reply, set_socket, open_session,
  login_request, two_factor_response,
}
use collab_vm_server.Auth.Grants.{some_cc}
use collab_vm_server.Auth.Reach.{two_factor_response-same}
use collab_vm_server.Auth.Logins.{login-Matches}

-- The account of the name, if there is one, asks for a second factor.
abbrev pub HasKey : Database → Text → Type 0
HasKey db name = (u : User) → get_user name db.users ≡ some u → is_empty u.totp_key ≡ false

-- The accounts and whether the client is logged in are the same.
abbrev pub StillOut : ℕ → Auth → Auth → Type 0
StillOut c s t = (t.db ≡ s.db) × ((t.sockets c).is_logged_in ≡ (s.sockets c).is_logged_in)

still : (c : ℕ) (s t u : Auth) → s ≡ t → StillOut c u s → StillOut c u t
still c s t u e h = subst (StillOut c u) e h

-- A step that the client takes to log in.
pub data Attempt : Type 0 where
  request : Bool → Text → Text → Surroundings → Attempt
  response : ℕ → ℕ → Attempt

module _ (argon2 : Text → Text → Text) (hmac : List ℕ → List ℕ → List ℕ) where
  abbrev pub try : ℕ → Attempt → Auth → Option Auth
  try c (request captcha name password e) s = login_request argon2 c captcha name password e s
  try c (response code now) s = two_factor_response hmac c code now s

  abbrev pub try_all : ℕ → List Attempt → Auth → Option Auth
  try_all c [] s = some s
  try_all c (a ∷ attempts) s = try c a s >>= λ t. try_all c attempts t

  abbrev pub AsksForKey : Database → Attempt → Type 0
  AsksForKey db (request captcha name password e) = HasKey db name
  AsksForKey db (response code now) = Unit {0}

  request-StillOut :
      (c : ℕ) (captcha : Bool) (name password : Text) (e : Surroundings) (s t : Auth)
      → HasKey s.db name
      → login_request argon2 c captcha name password e s ≡ some t
      → StillOut c s t
  unfolding login_request
  request-StillOut c false name password e s t k h =
      still c (reply c login_captcha s) t s (some_cc (reply c login_captcha s) t h) (refl, refl)
  request-StillOut c true name password e s t k h =
      by_result (login argon2 name password s.db).0 (login argon2 name password s.db).1 refl h
    where
      by_result :
          (r : LoginResult) (key : Text)
          → login argon2 name password s.db ≡ (r, key)
          → elim r [
            | success ↦ open_session c name e (λ n id is_admin. login_session id n is_admin) s
            | two_factor_required ↦ some (
                reply c
                  (login_result two_factor_required)
                  (set_socket c (record (s.sockets c) { totp_key = key }) s))
            | invalid_username ↦ some (reply c (login_result invalid_username) s)
            | account_disabled ↦ some (reply c (login_result account_disabled) s)
            | invalid_password ↦ some (reply c (login_result invalid_password) s)
          ]
            ≡ some t
          → StillOut c s t
      by_result success key l h =
          let (u, a, d, p, none_asked) = login-Matches argon2 name password key s.db l in
          absurd (cc (sym none_asked ∙ k u a))
      by_result two_factor_required key l h =
          still c _ t s (some_cc _ t h) (refl, rw (==_refl c) refl)
      by_result invalid_username key l h =
          still c _ t s (some_cc (reply c (login_result invalid_username) s) t h) (refl, refl)
      by_result account_disabled key l h =
          still c _ t s (some_cc (reply c (login_result account_disabled) s) t h) (refl, refl)
      by_result invalid_password key l h =
          still c _ t s (some_cc (reply c (login_result invalid_password) s) t h) (refl, refl)

  try-StillOut :
      (c : ℕ) (a : Attempt) (s t : Auth) → AsksForKey s.db a → try c a s ≡ some t → StillOut c s t
  try-StillOut c (request captcha name password e) s t k h =
      request-StillOut c captcha name password e s t k h
  try-StillOut c (response code now) s t k h =
      still c s t s (two_factor_response-same hmac c code now s t h) (refl, refl)

  -- Whatever passwords, captchas and codes a client sends for names whose accounts ask for a second
  -- factor, right ones included: it is logged in after them only if it was before.
  pub try_all-StillOut :
      (c : ℕ) (attempts : List Attempt) (s t : Auth)
      → All (AsksForKey s.db) attempts
      → try_all c attempts s ≡ some t
      → StillOut c s t
  try_all-StillOut c [] s t k h = still c s t s (some_cc s t h) (refl, refl)
  try_all-StillOut c (a ∷ attempts) s t k h =
      let (m, first, rest) = >>=-eq-some (try c a s) (λ m. try_all c attempts m) h in
      let (d, l) = try-StillOut c a s m k.0 first in
      let keyed : All (AsksForKey m.db) attempts =
        subst (λ db. All (AsksForKey db) attempts) (sym d) k.1 in
      let (d', l') = try_all-StillOut c attempts m t keyed rest in (d' ∙ d, l' ∙ l)
