-- ===== src/Auth/Examples.antt =====
-- CollabVmServer.hpp: the theorems on accounts and clients at a small server.
use collab_vm_server.Base.{
  ℕ, ◌≡◌, refl, Bool, true, false, none, some, List, [], ◌∷◌, ◌++◌, is_empty, replicate, arith,
  ◌>>=◌, update,
}
use collab_vm_server.Message.{Text}
use collab_vm_server.Accounts.{
  User, Database, get_user, new_user, login, create_session, create_account, create_user,
  is_username_taken, validate_invite, two_factor_required,
}
use collab_vm_server.Totp.{validate_totp, generate_totp}
use collab_vm_server.Auth.{
  Auth, Registration, Surroundings, registration_session, login_session, login_result,
  login_request, registration_request, open_session, create_account_and_session,
  two_factor_response,
}
use collab_vm_server.Auth.Grants.{AuthInv}
use collab_vm_server.Auth.Reach.{start, registers, new_socket, AuthReach-AuthInv}
use collab_vm_server.Auth.Logins.{logged_in_as, login_request_sound}
use collab_vm_server.Auth.Factors.{StillOut, request, response, try_all-StillOut}
use collab_vm_server.Auth.Nameless.{NoSession, registration_request-nameless}
use collab_vm_server.Auth.Opened.{registration_request-opens}

abbrev plain_hash : Text → Text → Text
plain_hash password salt = salt ++ password

abbrev any_name : Text → Bool
any_name name = true

abbrev no_hmac : List ℕ → List ℕ → List ℕ
no_hmac key text = replicate 20 1

abbrev here : Surroundings
here = record { ids = (5 ∷ []) ∷ (6 ∷ []) ∷ []; now = 100; ip_address = 127 ∷ []; salt = 9 ∷ [] }

abbrev no_users : Database
no_users = record { users = []; next_id = 1; invites = []; reserved = [] }

abbrev at_start : Auth
at_start = record {
  db = no_users;
  sockets = λ c. new_socket;
  sessions = [];
  allow_account_registration = true;
  replies = [];
}

abbrev ann : Registration
ann = record { username = 97 ∷ []; password = 1 ∷ []; invite_id = []; two_factor_token = none }

none_taken : is_username_taken (97 ∷ []) no_users ≡ false
unfolding is_username_taken
none_taken = refl

registration_request-opens_example :
    (t : Auth) × (registration_request plain_hash any_name 3 true ann here at_start ≡ some t)
    × (t.sockets 3 ≡ record new_socket { username = 97 ∷ []; is_logged_in = true; is_admin = true })
    × (t.replies ≡ (3, registration_session (5 ∷ []) (97 ∷ [])) ∷ [])
registration_request-opens_example =
    registration_request-opens plain_hash any_name 3 ann (5 ∷ []) ((6 ∷ []) ∷ []) here at_start refl
      refl refl refl (omega arith) refl none_taken refl refl

-- The account with its session, and the server after the registration.
abbrev ann_row : User
ann_row = record (new_user plain_hash (97 ∷ []) (1 ∷ []) none (127 ∷ []) (9 ∷ []) 100 true) {
  id = 1;
  session_id = 5 ∷ [];
}

abbrev with_ann : Auth
with_ann = record {
  db = record { users = ann_row ∷ []; next_id = 2; invites = []; reserved = [] };
  sockets = update (λ c. new_socket) 3 (logged_in_as ann_row new_socket);
  sessions = (5 ∷ [], 3) ∷ [];
  allow_account_registration = true;
  replies = (3, registration_session (5 ∷ []) (97 ∷ [])) ∷ [];
}

ann_registered : registration_request plain_hash any_name 3 true ann here at_start ≡ some with_ann
unfolding registration_request create_account_and_session open_session create_session create_account
    create_user is_username_taken
ann_registered = refl

AuthReach-AuthInv_example : AuthInv with_ann
AuthReach-AuthInv_example = AuthReach-AuthInv plain_hash any_name no_hmac with_ann (
    registers 3 true ann here (start no_users true (record { distinct = tt; below = tt }))
      ann_registered)

-- Ann logs in from a second socket.
abbrev later : Surroundings
later = record here { ids = (6 ∷ []) ∷ []; now = 200 }

abbrev ann_later : User
ann_later = record ann_row { last_login = 200; session_id = 6 ∷ [] }

abbrev ann_twice : Auth
ann_twice = record with_ann {
  db = record { users = ann_later ∷ []; next_id = 2; invites = []; reserved = [] };
  sockets = update with_ann.sockets 4 (logged_in_as ann_row new_socket);
  sessions = (5 ∷ [], 3) ∷ (6 ∷ [], 4) ∷ [];
  replies = with_ann.replies ++ (4, login_session (6 ∷ []) (97 ∷ []) true) ∷ [];
}

ann_logs_in : login_request plain_hash 4 true (97 ∷ []) (1 ∷ []) later with_ann ≡ some ann_twice
unfolding login_request login open_session create_session
ann_logs_in = refl

login_request_sound_example :
    (true ≡ true)
    × ((u : User) × (get_user (97 ∷ []) (ann_row ∷ []) ≡ some u)
        × (u.is_disabled ≡ false)
        × (u.password_hash ≡ plain_hash (1 ∷ []) u.password_salt)
        × (is_empty u.totp_key ≡ true)
        × (ann_twice.sockets 4 ≡ logged_in_as u (with_ann.sockets 4)))
login_request_sound_example =
    login_request_sound plain_hash 4 true (97 ∷ []) (1 ∷ []) later with_ann ann_twice refl
      ann_logs_in refl

-- The account has a second factor.
abbrev key : Text
key = replicate 20 7

abbrev guarded : Auth
guarded = record with_ann {
  db = record {
    users = record ann_row { totp_key = key } ∷ [];
    next_id = 2;
    invites = [];
    reserved = [];
  };
}

ann_has_key :
    (u : User) → get_user (97 ∷ []) guarded.db.users ≡ some u → is_empty u.totp_key ≡ false
unfolding get_user
ann_has_key u h = ground arith

abbrev refused_twice : Auth
refused_twice = record guarded {
  sockets = update guarded.sockets 4 (record new_socket { totp_key = key });
  replies = guarded.replies ++ (4, login_result two_factor_required) ∷ [];
}

ann_tries :
    (login_request plain_hash 4 true (97 ∷ []) (1 ∷ []) later guarded >>= λ t.
    two_factor_response no_hmac 4 16843009 200 t >>= λ t'. some t')
    ≡ some refused_twice
unfolding login_request login two_factor_response validate_totp generate_totp
ann_tries = refl

try_all-StillOut_example : StillOut 4 guarded refused_twice
try_all-StillOut_example =
    try_all-StillOut plain_hash no_hmac 4
      (request true (97 ∷ []) (1 ∷ []) later ∷ response 16843009 200 ∷ []) guarded refused_twice
      (ann_has_key, (tt, tt)) ann_tries

-- An invitation that names nobody, and a name of length one.
abbrev invite_id : Text
invite_id = replicate 32 4

abbrev with_invite : Auth
with_invite = record at_start {
  db = record no_users {
    invites =
        record { id = invite_id; username = []; name = []; is_admin = false; accepted = false }
        ∷ [];
  };
}

abbrev accepted : Auth
accepted = record at_start {
  db = record {
    users =
        record (new_user plain_hash [] (1 ∷ []) none (127 ∷ []) (9 ∷ []) 100 false) {
          id = 1;
          session_id = 5 ∷ [];
        }
        ∷ [];
    next_id = 2;
    invites =
        record { id = invite_id; username = []; name = []; is_admin = false; accepted = true } ∷ [];
    reserved = [];
  };
}

abbrev by_invite : Registration
by_invite = record ann { invite_id = invite_id }

invite_open : validate_invite invite_id with_invite.db ≡ (true, [])
unfolding validate_invite
invite_open = refl

nobody_registered :
    registration_request plain_hash any_name 3 false by_invite here with_invite ≡ some accepted
unfolding registration_request create_account_and_session open_session create_session create_account
    create_user validate_invite
nobody_registered = refl

registration_request-nameless_example : NoSession with_invite accepted
registration_request-nameless_example =
    registration_request-nameless plain_hash any_name 3 false by_invite here with_invite accepted
      refl invite_open nobody_registered
