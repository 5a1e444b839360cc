-- ===== src/Auth/Rows.antt =====
-- Database/Database.cpp: what the requests of clients leave of the names and the rights in the table of
-- the users.
use collab_vm_server.Base.{
  ℕ, ◌+◌, ◌<◌, ◌≡◌, ◌≢◌, inl, inr, refl, sym, ap, ◌∙◌, Bool, true, ◌&&◌, ◌||◌, none, some, List, [],
  ◌∷◌, ◌++◌, map, ◌==◌, arith, Bool-cases, Option-cases, index_of, Distinct, Distinct-append_absent,
  All,
}
use collab_vm_server.Message.{Text, text_eq}
use collab_vm_server.Accounts.{User, Database, any, get_user, replace, create_user}

abbrev pub has_name : Text → User → Bool
has_name name u = text_eq u.username name

abbrev pub is_admin_named : Text → User → Bool
is_admin_named name u = text_eq u.username name && u.is_admin

abbrev pub ids : List User → List ℕ
ids us = map (λ u. u.id) us

-- The ids are a key, and the next one is free.
pub record Keyed (db : Database) : Type 0 where
  pub distinct : Distinct (ids db.users)
  pub below : All (λ (u : User). u.id < db.next_id) db.users

-- No name and no right is lost.
pub record Grows (db db' : Database) : Type 0 where
  pub names : (n : Text) → any (has_name n) db.users ≡ true → any (has_name n) db'.users ≡ true
  pub admins :
      (n : Text) → any (is_admin_named n) db.users ≡ true → any (is_admin_named n) db'.users ≡ true
  pub keyed : Keyed db → Keyed db'

pub Grows_refl : (db : Database) → Grows db db
Grows_refl db = record { names = λ n h. h; admins = λ n h. h; keyed = λ k. k }

-- The rows with the id of `u` are `u`.
abbrev pub OnlyRow : User → List User → Type 0
OnlyRow u us = All (λ (v : User). (v.id == u.id) ≡ true → v ≡ u) us

absent-OnlyRow : (u : User) (us : List User) → index_of u.id (ids us) ≡ none → OnlyRow u us
absent-OnlyRow u [] h = tt
absent-OnlyRow u (v ∷ us) h =
    ((λ e. absurd (ground (arith, e))), absent-OnlyRow u us (ground arith))

get_user-id :
    (name : Text) (us : List User) (u : User)
    → get_user name us ≡ some u
    → index_of u.id (ids us) ≢ none
unfolding get_user
get_user-id name [] u h = cc
get_user-id name (v ∷ us) u h = elim (Option-cases (get_user name us)) [
  | inl e ↦ ground (arith, e)
  | inr (w, e) ↦ ground (arith, e, get_user-id name us u)
]

get_user-OnlyRow :
    (name : Text) (us : List User) (u : User)
    → Distinct (ids us)
    → get_user name us ≡ some u
    → OnlyRow u us
unfolding get_user
get_user-OnlyRow name [] u d h = tt
get_user-OnlyRow name (v ∷ us) u d h = elim (Option-cases (get_user name us)) [
  | inl e ↦
      let same : v ≡ u = ground (arith, e) in ((λ x. same), absent-OnlyRow u us (rw (sym same) d.0))
  | inr (w, e) ↦
      let later : get_user name us ≡ some u = ground (arith, e) in
      (
        (λ x. absurd (ground (arith, get_user-id name us u later))),
        get_user-OnlyRow name us u d.1 later,
      )
]

ids-replace : (u : User) (us : List User) → ids (replace u us) ≡ ids us
ids-replace u [] = refl
ids-replace u (v ∷ us) = ground (arith, ids-replace u us)

below-replace :
    (n : ℕ) (u : User) (us : List User)
    → u.id < n
    → All (λ (v : User). v.id < n) us
    → All (λ (v : User). v.id < n) (replace u us)
below-replace n u [] h b = tt
below-replace n u (v ∷ us) h b = ground (arith, below-replace n u us)

get_user-below :
    (n : ℕ) (name : Text) (us : List User) (u : User)
    → All (λ (v : User). v.id < n) us
    → get_user name us ≡ some u
    → u.id < n
unfolding get_user
get_user-below n name [] u b h = absurd (cc)
get_user-below n name (v ∷ us) u b h = elim (Option-cases (get_user name us)) [
  | inl e ↦ ground (arith, e)
  | inr (w, e) ↦ get_user-below n name us u b.1 (ground (arith, e))
]

any-replace :
    (p : User → Bool) (u u' : User) (us : List User)
    → OnlyRow u us
    → u'.id ≡ u.id
    → p u' ≡ p u
    → any p (replace u' us) ≡ any p us
any-replace p u u' [] o i e = refl
any-replace p u u' (v ∷ us) o i e = elim (Bool-cases (v.id == u'.id)) [
  | inl h ↦
      let same : v ≡ u = o.0 (ap (λ (n : ℕ). v.id == n) (sym i) ∙ h) in
      rw (h, any-replace p u u' us o.1 i e) (ap (λ b. b || any p us) (e ∙ ap p (sym same)))
  | inr h ↦ rw (h, any-replace p u u' us o.1 i e) refl
]

pub get_user-any :
    (p : User → Bool) (name : Text) (us : List User) (u : User)
    → get_user name us ≡ some u
    → p u ≡ true
    → any p us ≡ true
unfolding get_user
get_user-any p name [] u h e = absurd (cc)
get_user-any p name (v ∷ us) u h e = elim (Option-cases (get_user name us)) [
  | inl a ↦ ground (arith, a)
  | inr (w, a) ↦ ground (arith, a, get_user-any p name us u)
]

any-append_left :
    (p : User → Bool) (us : List User) (u : User) → any p us ≡ true → any p (us ++ u ∷ []) ≡ true
any-append_left p [] u h = absurd (cc)
any-append_left p (v ∷ us) u h = ground (arith, any-append_left p us u)

ids-append : (us : List User) (u : User) → ids (us ++ u ∷ []) ≡ ids us ++ u.id ∷ []
ids-append [] u = refl
ids-append (v ∷ us) u = ap (λ (l : List ℕ). v.id ∷ l) (ids-append us u)

below-index_of :
    (n : ℕ) (us : List User) → All (λ (u : User). u.id < n) us → index_of n (ids us) ≡ none
below-index_of n [] b = refl
below-index_of n (u ∷ us) b = ground (arith, below-index_of n us)

below-append :
    (n : ℕ) (us : List User) (u : User)
    → u.id ≡ n
    → All (λ (v : User). v.id < n) us
    → All (λ (v : User). v.id < n + 1) (us ++ u ∷ [])
below-append n [] u e b = ground arith
below-append n (v ∷ us) u e b = ground (arith, below-append n us u)

-- A row whose name and right are the user's takes the user's place.
pub Grows-replace :
    (db : Database) (name : Text) (u u' : User)
    → Keyed db
    → get_user name db.users ≡ some u
    → u'.id ≡ u.id
    → u'.username ≡ u.username
    → u'.is_admin ≡ u.is_admin
    → Grows db (record db { users = replace u' db.users })
Grows-replace db name u u' k found i e a =
    let only = get_user-OnlyRow name db.users u k.distinct found in
    record {
      names = λ n h. any-replace (has_name n) u u' db.users only i (rw e refl) ∙ h;
      admins = λ n h. any-replace (is_admin_named n) u u' db.users only i (rw (e, a) refl) ∙ h;
      keyed = λ k'. record {
        distinct = rw (ids-replace u' db.users) k'.distinct;
        below =
            below-replace db.next_id u' db.users
              (rw i (get_user-below db.next_id name db.users u k'.below found)) k'.below;
      };
    }

pub Grows-create_user : (db : Database) (u : User) → Grows db (create_user u db)
unfolding create_user
Grows-create_user db u =
    let row = record u { id = db.next_id } in
    record {
      names = λ n h. any-append_left (has_name n) db.users row h;
      admins = λ n h. any-append_left (is_admin_named n) db.users row h;
      keyed = λ k. record {
        distinct = rw (ids-append db.users row) (
            Distinct-append_absent db.next_id (ids db.users) k.distinct
              (below-index_of db.next_id db.users k.below));
        below = below-append db.next_id db.users row refl k.below;
      };
    }
