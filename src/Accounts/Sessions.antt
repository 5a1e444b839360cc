-- ===== src/Accounts/Sessions.antt =====
-- Database/Database.cpp: `CreateSession`.
use collab_vm_server.Base.{ℕ, ◌≡◌, refl, true, false, some, List, [], ◌∷◌, ◌++◌, All}
use collab_vm_server.Message.{Text}
use collab_vm_server.Accounts.{User, Database, get_user, session_taken, replace, create_session}
use collab_vm_server.Accounts.Rows.{get_user-replace, get_user-name}

-- The user's row with a new session.
abbrev pub with_session : ℕ → Text → Text → User → User
with_session now ip_address session_id u = record u {
  last_login = now;
  last_active_ip_address = ip_address;
  session_id = session_id;
}

-- Session ids that other users have are passed over, and the first free one is taken: the loop ends
-- there, the user's row holds the id, and the id is returned twice, as the old and the new one.
pub create_session_lem :
    (now : ℕ) (name ip_address id : Text) (used rest : List Text) (u : User) (db : Database)
    → get_user name db.users ≡ some u
    → u.is_disabled ≡ false
    → All (λ (i : Text). session_taken (with_session now ip_address i u) db.users ≡ true) used
    → session_taken (with_session now ip_address id u) db.users ≡ false
    → (db' : Database) × (create_session (used ++ id ∷ rest) now name ip_address db
        ≡ some (db', (u.username, u.is_admin, id, id)))
      × (get_user name db'.users ≡ some (with_session now ip_address id u))
unfolding create_session
create_session_lem now name ip_address id [] rest u db found enabled all free =
    let u' = with_session now ip_address id u in
    (
      record db { users = replace u' db.users },
      rw (found, create_session) (rw (enabled, free) refl),
      get_user-replace name db.users u u' found refl (get_user-name name db.users u found),
    )
create_session_lem now name ip_address id (i ∷ used) rest u db found enabled all free =
    let (db', e, g) =
      create_session_lem now name ip_address id used rest u db found enabled all.1 free in
    (db', rw (found, create_session) (rw (enabled, all.0) e), g)
