-- ===== src/Accounts/Rows.antt =====
-- Database/Database.cpp: the row of an account in the table of users.
use collab_vm_server.Base.{
  ℕ, ◌≡◌, ◌≢◌, refl, sym, ap, ◌∙◌, Bool, true, false, Option, none, some, List, [], ◌∷◌, ◌++◌, ◌==◌,
  ==_refl, arith, Bool-cases, Option-cases, ◌⊎◌, inl, inr,
}
use collab_vm_server.Message.{Text, text_eq}
use collab_vm_server.Accounts.{User, Database, RegisterAccountError, any, get_user, replace}

pub text_eq_refl : (t : Text) → text_eq t t ≡ true
text_eq_refl [] = refl
text_eq_refl (c ∷ t) = rw (==_refl c) (text_eq_refl t)

pub text_eq→≡ : (s t : Text) → text_eq s t ≡ true → s ≡ t
text_eq→≡ [] [] e = refl
text_eq→≡ [] (b ∷ t) e = cc
text_eq→≡ (a ∷ s) [] e = cc
text_eq→≡ (a ∷ s) (b ∷ t) e = ground (arith, text_eq→≡ s t)

-- The last row with the name is the one that counts.
pub get_user-last :
    (name : Text) (us : List User) (u : User)
    → text_eq u.username name ≡ true
    → get_user name (us ++ u ∷ []) ≡ some u
unfolding get_user
get_user-last name [] u e = rw e refl
get_user-last name (v ∷ us) u e = rw (get_user-last name us u e) refl

pub get_user-name :
    (name : Text) (us : List User) (u : User)
    → get_user name us ≡ some u
    → text_eq u.username name ≡ true
unfolding get_user
get_user-name name [] u e = cc
get_user-name name (v ∷ us) u e = elim (Option-cases (get_user name us)) [
  | inl a ↦ ground (arith, a)
  | inr (w, a) ↦ get_user-name name us u (ground (arith, a))
]

-- A row written back under its id and name is found in its place, whatever other rows there are.
get_user-replace-absent :
    (name : Text) (us : List User) (u : User)
    → get_user name us ≡ none
    → text_eq u.username name ≡ true
    → (get_user name (replace u us) ≡ none) ⊎ (get_user name (replace u us) ≡ some u)
unfolding get_user
get_user-replace-absent name [] u a e = inl refl
get_user-replace-absent name (v ∷ us) u a e =
    elim (get_user-replace-absent name us u (ground arith) e) [
      | inr found ↦ inr (rw found refl)
      | inl absent ↦ elim (Bool-cases (v.id == u.id)) [
        | inl same ↦ inr (rw (absent, same, e) refl)
        | inr other ↦ inl (rw (absent, other) (ground arith))
      ]
    ]

some-injective : (u v : User) → some u ≡ some v → u ≡ v
some-injective u v e = cc

last-id :
    (name : Text) (us : List User) (v u : User)
    → get_user name us ≡ none
    → get_user name (v ∷ us) ≡ some u
    → v.id ≡ u.id
unfolding get_user
last-id name us v u b a = elim (Bool-cases (text_eq v.username name)) [
  | inl t ↦
      let q : get_user name (v ∷ us) ≡ some v = rw (b, t) refl in
      ap (λ (w : User). w.id) (some-injective v u (sym q ∙ a))
  | inr f ↦ let q : get_user name (v ∷ us) ≡ none = rw (b, f) refl in absurd (cc (sym q ∙ a))
]

pub get_user-replace :
    (name : Text) (us : List User) (u u' : User)
    → get_user name us ≡ some u
    → u'.id ≡ u.id
    → text_eq u'.username name ≡ true
    → get_user name (replace u' us) ≡ some u'
unfolding get_user
get_user-replace name [] u u' a i e = absurd (cc)
get_user-replace name (v ∷ us) u u' a i e = elim (Option-cases (get_user name us)) [
  | inr (w, b) ↦ rw (get_user-replace name us u u' (ground (arith, b)) i e) refl
  | inl b ↦ elim (get_user-replace-absent name us u' b e) [
    | inr found ↦ rw found refl
    | inl absent ↦
        rw (absent, ap (λ (n : ℕ). n == u'.id) (last-id name us v u b a ∙ sym i) ∙ ==_refl u'.id, e)
          refl
  ]
]

pub registered_db :
    (a b : Database) (x y : RegisterAccountError)
    → Path (Option (Database × RegisterAccountError)) (some (a, x)) (some (b, y))
    → (a ≡ b) × (x ≡ y)
registered_db a b x y e = (cc, cc)

pub changed_db :
    (a b : Database) (x y : Bool)
    → Path (Option (Database × Bool)) (some (a, x)) (some (b, y))
    → (a ≡ b) × (x ≡ y)
changed_db a b x y e = (cc, cc)

pub text_eq-differs : (s t : Text) → s ≢ t → text_eq s t ≡ false
text_eq-differs s t d = elim (Bool-cases (text_eq s t)) [
  | inl e ↦ absurd (d (text_eq→≡ s t e))
  | inr e ↦ e
]

pub any-last :
    (p : User → Bool) (us : List User) (u : User) → p u ≡ true → any p (us ++ u ∷ []) ≡ true
any-last p [] u e = rw e refl
any-last p (v ∷ us) u e = ground (arith, any-last p us u e)
