-- ===== src/Config/Updates.antt =====
-- Database/Database.h: `UpdateList` against the list of the settings with their updates.
use collab_vm_server.Base.{
  ℕ, zero, suc, ◌+◌, ◌<◌, ◌≡◌, refl, sym, ap, ◌∙◌, some, List, [], ◌∷◌, ◌++◌, map, append_assoc,
  append-nil, length, length-set, set, take, lt→ltb, ==_refl, arith, Option-cases, inl, inr,
}
use collab_vm_server.Config.{Setting, find_setting, pick, update_each, update_list}

-- The settings stand at their numbers, from `i` on.
abbrev pub InOrder : ℕ → List Setting → Type 0
InOrder i [] = Unit {0}
InOrder i (s ∷ l) = (s.which ≡ i) × InOrder (suc i) l

find_setting-which :
    (t : ℕ) (us : List Setting) (u : Setting) → find_setting t us ≡ some u → u.which ≡ t
find_setting-which t [] u h = absurd (cc)
find_setting-which t (v ∷ us) u h = ground (arith, find_setting-which t us u)

pub pick-which : (us : List Setting) (o : Setting) → (pick us o).which ≡ o.which
pick-which us o = elim (Option-cases (find_setting o.which us)) [
  | inl e ↦ rw (e, pick) refl
  | inr (u, e) ↦ rw (e, pick) (find_setting-which o.which us u e)
]

pub InOrder-pick :
    (us : List Setting) (i : ℕ) (l : List Setting) → InOrder i l → InOrder i (map (pick us) l)
InOrder-pick us i [] h = tt
InOrder-pick us i (o ∷ l) h = (pick-which us o ∙ h.0, InOrder-pick us (suc i) l h.1)

pub take-set :
    (i : ℕ) (l : List Setting) (v : Setting)
    → i < length l
    → take (suc i) (set l i v) ≡ take i l ++ v ∷ []
take-set i [] v h = absurd (omega (arith, h))
take-set zero (x ∷ l) v h = refl
take-set (suc i) (x ∷ l) v h = ap (λ (t : List Setting). x ∷ t) (take-set i l v (omega arith))

pub take-all : (l : List Setting) → take (length l) l ≡ l
take-all [] = refl
take-all (x ∷ l) = ap (λ (t : List Setting). x ∷ t) (take-all l)

update_each-map :
    (us : List Setting) (i : ℕ) (old new : List Setting)
    → InOrder i old
    → length new ≡ i + length old
    → update_each us old new ≡ some (take i new ++ map (pick us) old)
update_each-map us i [] new h e =
    let q : i ≡ length new = omega arith in
    ap some (sym (rw q (append-nil (take (length new) new) ∙ take-all new)))
update_each-map us i (o ∷ old) new h e =
    let below : i < length new = omega arith in
    let w : o.which ≡ i = h.0 in
    let step =
      update_each-map us (suc i) old (set new i (pick us o)) h.1
        (length-set new i (pick us o) ∙ omega arith) in
    rw (lt→ltb o.which (length new) (omega (arith, w))) (
      ap (λ (k : ℕ). update_each us old (set new k (pick us o))) w
      ∙ step
      ∙ ap some (
          ap (λ (t : List Setting). t ++ map (pick us) old) (take-set i new (pick us o) below)
          ∙ append_assoc (take i new) (pick us o ∷ []) (map (pick us) old)))

-- When the settings stand at their numbers and the new list is as long, UpdateList makes the list in
-- which every setting is replaced by the first update of its kind, if there is one.
pub update_list-map :
    (us old new : List Setting)
    → InOrder 0 old
    → length new ≡ length old
    → (update_list old new us ≡ some (map (pick us) old)) × InOrder 0 (map (pick us) old)
unfolding update_list
update_list-map us old new h e = (
  rw (e, ==_refl (length old)) (update_each-map us 0 old new h (e ∙ omega arith)),
  InOrder-pick us 0 old h,
)
