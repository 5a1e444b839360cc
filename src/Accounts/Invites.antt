-- ===== src/Accounts/Invites.antt =====
-- Database/Database.cpp: invitations.
use collab_vm_server.Base.{
  ℕ, ◌≡◌, refl, Bool, true, false, not, Option, none, some, List, [], ◌∷◌, ◌++◌, arith, Bool-cases,
  inl, inr,
}
use collab_vm_server.Message.{Text, text_eq}
use collab_vm_server.Accounts.{
  UserInvite, Database, registered, invite_invalid, any, accept, open_invite, find_invite,
  create_user, new_user, create_account, validate_invite,
}

open_invite-accept :
    (id : Text) (is : List UserInvite) → any (open_invite id) (accept id is) ≡ false
open_invite-accept id [] = refl
open_invite-accept id (i ∷ is) = ground (arith, open_invite-accept id is)

find_invite-accept :
    (id : Text) (is : List UserInvite) → find_invite (open_invite id) (accept id is) ≡ none
find_invite-accept id [] = refl
find_invite-accept id (i ∷ is) = ground (arith, find_invite-accept id is)

-- An invitation that is open is in the table after it has been accepted.
find_invite-accepted :
    (id : Text) (is : List UserInvite)
    → any (open_invite id) is ≡ true
    → (i : UserInvite) × (find_invite (λ (j : UserInvite). text_eq j.id id) (accept id is) ≡ some i)
find_invite-accepted id [] e = absurd (cc)
find_invite-accepted id (i ∷ is) e = elim (Bool-cases (text_eq i.id id)) [
  | inl same ↦ elim (Bool-cases i.accepted) [
    | inl a ↦ (i, rw (same, a, not) (rw same refl))
    | inr a ↦ (record i { accepted = true }, rw (same, a, not) (rw same refl))
  ]
  | inr other ↦
      let (j, f) = find_invite-accepted id is (ground (arith, other)) in (j, rw other (rw other f))
]

module _ (argon2 : Text → Text → Text) where
  -- An invitation makes exactly one account. With one that is open, registration succeeds and adds one
  -- row to the users, the account's, with the right that the invitation gives; from then on the
  -- invitation is not valid, and to register with it again changes nothing.
  pub create_account-invite :
      (name name' password password' id : Text) (totp_key totp_key' : Option Text)
      (ip salt ip' salt' : Text) (now later : ℕ) (db : Database)
      → (validate_invite id db).0 ≡ true
      → (db' : Database) × (create_account argon2 name password totp_key (some id) ip salt now db
          ≡ some (db', registered))
        × ((i : UserInvite) × (find_invite (λ (j : UserInvite). text_eq j.id id) db'.invites
              ≡ some i)
            × (db'.users
                ≡ db.users
                  ++ record (new_user argon2 name password totp_key ip salt now i.is_admin) {
                    id = db.next_id;
                  }
                    ∷ []))
        × (validate_invite id db' ≡ (false, []))
        × (create_account argon2 name' password' totp_key' (some id) ip' salt' later db'
            ≡ some (db', invite_invalid))
  unfolding create_account validate_invite create_user
  create_account-invite name name' password password' id totp_key totp_key' ip salt ip' salt' now
        later db v =
      let opened = valid-open db.invites v in
      let (i, found) = find_invite-accepted id db.invites opened in
      (
        create_user (new_user argon2 name password totp_key ip salt now i.is_admin)
            (record db { invites = accept id db.invites }),
        rw (opened, found) refl,
        (i, found, refl),
        rw (find_invite-accept id db.invites, validate_invite) refl,
        rw (open_invite-accept id db.invites) refl,
      )
    where
      valid-open :
          (is : List UserInvite)
          → (elim (find_invite (open_invite id) is) as (λ o. Bool × Text) [
            | none ↦ (false, [])
            | some i ↦ (true, i.username)
          ]).0
            ≡ true
          → any (open_invite id) is ≡ true
      valid-open [] e = absurd (cc)
      valid-open (i ∷ is) e = ground (arith, valid-open is)
