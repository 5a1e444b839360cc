-- ===== src/Channel/Users.antt =====
-- CollabVmServer.hpp (`UserData`) and the map `users_` of UserChannel.hpp: `find`, `emplace`, `erase`,
-- and the write through a reference to an entry's data.
use collab_vm_server.Base.{
  ℕ, ◌≡◌, refl, Bool, true, false, Option, none, some, List, [], ◌∷◌, ◌++◌, arith, ◌==◌,
  if◌then◌else◌, index_of, Distinct, erase as erase_key, ◌+◌, ◌≤◌, length, ap, map_option,
  Option-cases, inl, inr,
}
use collab_vm_server.Vote.{UserVoteData}
use collab_vm_server.Message.{Text, UserType, guest, regular, admin}

pub record UserData : Type 0 where
  pub username : Text
  pub user_type : UserType
  pub ip_address : List ℕ
  pub vote_data : UserVoteData

abbrev pub is_admin_type : UserType → Bool
is_admin_type admin = true
is_admin_type regular = false
is_admin_type guest = false

abbrev pub is_admin : UserData → Bool
is_admin d = is_admin_type d.user_type

abbrev pub UserMap : Type 0
UserMap = List (ℕ × UserData)

unfoldable pub find : ℕ → UserMap → Option UserData
find u [] = none
find u ((v, d) ∷ us) = if u == v then some d else find u us

-- `emplace` leaves an entry alone that is there.
pub emplace : ℕ → UserData → UserMap → UserMap
emplace u d [] = (u, d) ∷ []
emplace u d ((v, e) ∷ us) = if u == v then (v, e) ∷ us else (v, e) ∷ emplace u d us

pub erase : ℕ → UserMap → UserMap
erase u [] = []
erase u ((v, e) ∷ us) = if u == v then us else (v, e) ∷ erase u us

pub put : ℕ → UserData → UserMap → UserMap
put u d [] = []
put u d ((v, e) ∷ us) = if u == v then (v, d) ∷ us else (v, e) ∷ put u d us

abbrev pub keys : UserMap → List ℕ
keys [] = []
keys ((u, d) ∷ us) = u ∷ keys us

-- The number of entries whose data pass a test.
abbrev pub count_users : (UserData → Bool) → UserMap → ℕ
count_users p [] = 0
count_users p ((u, d) ∷ us) = (if p d then 1 else 0) + count_users p us

pub find-absent : (u : ℕ) (us : UserMap) → find u us ≡ none → index_of u (keys us) ≡ none
unfolding find
find-absent u [] h = refl
find-absent u ((v, d) ∷ us) h = ground (arith, find-absent u us)

pub absent-find : (u : ℕ) (us : UserMap) → index_of u (keys us) ≡ none → find u us ≡ none
unfolding find
absent-find u [] h = refl
absent-find u ((v, d) ∷ us) h = ground (arith, absent-find u us)

pub keys-emplace :
    (u : ℕ) (d : UserData) (us : UserMap)
    → find u us ≡ none
    → keys (emplace u d us) ≡ keys us ++ u ∷ []
unfolding find emplace
keys-emplace u d [] h = refl
keys-emplace u d ((v, e) ∷ us) h = ground (arith, keys-emplace u d us)

pub keys-erase : (u : ℕ) (us : UserMap) → keys (erase u us) ≡ erase_key u (keys us)
unfolding erase
keys-erase u [] = refl
keys-erase u ((v, e) ∷ us) = ground (arith, keys-erase u us)

pub keys-put : (u : ℕ) (d : UserData) (us : UserMap) → keys (put u d us) ≡ keys us
unfolding put
keys-put u d [] = refl
keys-put u d ((v, e) ∷ us) = ground (arith, keys-put u d us)

pub find-emplace :
    (u v : ℕ) (d : UserData) (us : UserMap)
    → find u us ≡ none
    → find v (emplace u d us) ≡ (if v == u then some d else find v us)
unfolding find emplace
find-emplace u v d [] h = refl
find-emplace u v d ((w, e) ∷ us) h = ground (arith, find-emplace u v d us)

pub find-erase :
    (u v : ℕ) (us : UserMap)
    → Distinct (keys us)
    → find v (erase u us) ≡ (if v == u then none else find v us)
unfolding find erase
find-erase u v [] h = ground arith
find-erase u v ((w, e) ∷ us) h = ground (arith, find-erase u v us, absent-find w us)

pub find-put :
    (u v : ℕ) (d e : UserData) (us : UserMap)
    → find u us ≡ some e
    → find v (put u d us) ≡ (if v == u then some d else find v us)
unfolding find put
find-put u v d e [] h = ground arith
find-put u v d e ((w, f) ∷ us) h = ground (arith, find-put u v d e us)

module _ (p : UserData → Bool) where
  pub count-emplace :
      (u : ℕ) (d : UserData) (us : UserMap)
      → find u us ≡ none
      → count_users p (emplace u d us) ≡ count_users p us + (if p d then 1 else 0)
  unfolding find emplace
  count-emplace u d [] h = ground arith
  count-emplace u d ((v, e) ∷ us) h = ground (arith, count-emplace u d us)

  pub count-erase :
      (u : ℕ) (d : UserData) (us : UserMap)
      → find u us ≡ some d
      → count_users p (erase u us) + (if p d then 1 else 0) ≡ count_users p us
  unfolding find erase
  count-erase u d [] h = ground arith
  count-erase u d ((v, e) ∷ us) h = ground (arith, count-erase u d us)

  pub count-put :
      (u : ℕ) (d e : UserData) (us : UserMap)
      → find u us ≡ some e
      → count_users p (put u d us) + (if p e then 1 else 0)
        ≡ count_users p us + (if p d then 1 else 0)
  unfolding find put
  count-put u d e [] h = ground arith
  count-put u d e ((v, f) ∷ us) h = ground (arith, count-put u d e us)

-- Who is in the map, and who of them is an administrator.
abbrev pub roster : UserMap → List (ℕ × Bool)
roster [] = []
roster ((u, d) ∷ us) = (u, is_admin d) ∷ roster us

abbrev pub roster_keys : List (ℕ × Bool) → List ℕ
roster_keys [] = []
roster_keys ((u, b) ∷ r) = u ∷ roster_keys r

abbrev pub roster_admins : List (ℕ × Bool) → ℕ
roster_admins [] = 0
roster_admins ((u, b) ∷ r) = (if b then 1 else 0) + roster_admins r

abbrev pub roster_flag : ℕ → List (ℕ × Bool) → Option Bool
roster_flag u [] = none
roster_flag u ((v, b) ∷ r) = if u == v then some b else roster_flag u r

pub roster_keys-roster : (us : UserMap) → roster_keys (roster us) ≡ keys us
roster_keys-roster [] = refl
roster_keys-roster ((u, d) ∷ us) = ap (◌∷◌ u) (roster_keys-roster us)

pub roster_admins-roster : (us : UserMap) → roster_admins (roster us) ≡ count_users is_admin us
roster_admins-roster [] = refl
roster_admins-roster ((u, d) ∷ us) =
    ap (λ (n : ℕ). (if is_admin d then 1 else 0) + n) (roster_admins-roster us)

pub roster_flag-roster :
    (u : ℕ) (us : UserMap) → roster_flag u (roster us) ≡ map_option is_admin (find u us)
unfolding find
roster_flag-roster u [] = refl
roster_flag-roster u ((v, d) ∷ us) = ground (arith, roster_flag-roster u us)

pub roster-put :
    (u : ℕ) (d e : UserData) (us : UserMap)
    → find u us ≡ some e
    → is_admin d ≡ is_admin e
    → roster (put u d us) ≡ roster us
unfolding find put
roster-put u d e [] h k = refl
roster-put u d e ((v, f) ∷ us) h k = ground (arith, roster-put u d e us)

-- A user found in one of two maps with the same roster is in the other, with the same rank.
pub find-roster :
    (u : ℕ) (d : UserData) (us vs : UserMap)
    → roster vs ≡ roster us
    → find u us ≡ some d
    → (e : UserData) × (find u vs ≡ some e) × (is_admin e ≡ is_admin d)
find-roster u d us vs r h = elim (Option-cases (find u vs)) [
  | inl e ↦ absurd (cc (roster_flag-roster u us, roster_flag-roster u vs, ap (roster_flag u) r))
  | inr (e, k) ↦
      (e, k, ground (arith, roster_flag-roster u us, roster_flag-roster u vs, ap (roster_flag u) r))
]

pub count-le-length : (p : UserData → Bool) (us : UserMap) → count_users p us ≤ length us
count-le-length p [] = omega arith
count-le-length p ((u, d) ∷ us) = ground (arith, count-le-length p us)
