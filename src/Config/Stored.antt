-- ===== src/Config/Stored.antt =====
-- Database/Database.cpp: updates that are stored one after the other.
use collab_vm_server.Base.{
  ℕ, suc, ◌≡◌, refl, sym, ap, ◌∙◌, true, false, none, List, [], ◌∷◌, map, length, ◌==◌, ==_iff,
  if◌then◌else◌, arith, Bool-cases, inl, inr, index_of, Distinct,
}
use collab_vm_server.Config.{Setting, pick}
use collab_vm_server.Config.Updates.{InOrder}

-- The settings with the one update.
abbrev pub overwrite : Setting → List Setting → List Setting
overwrite u l = map (λ o. if o.which == u.which then u else o) l

abbrev pub overwrite_all : List Setting → List Setting → List Setting
overwrite_all [] l = l
overwrite_all (u ∷ us) l = overwrite_all us (overwrite u l)

abbrev pub overwrite_one : List Setting → Setting → Setting
overwrite_one [] o = o
overwrite_one (u ∷ us) o = overwrite_one us (if o.which == u.which then u else o)

abbrev pub kinds : List Setting → List ℕ
kinds us = map (λ u. u.which) us

pub overwrite_all-map : (us l : List Setting) → overwrite_all us l ≡ map (overwrite_one us) l
overwrite_all-map [] l = sym (map_same l)
  where
    map_same : (l : List Setting) → map (overwrite_one []) l ≡ l
    map_same [] = refl
    map_same (o ∷ l) = ap (λ (t : List Setting). o ∷ t) (map_same l)
overwrite_all-map (u ∷ us) l = overwrite_all-map us (overwrite u l) ∙ fused l
  where
    fused :
        (l : List Setting) → map (overwrite_one us) (overwrite u l) ≡ map (overwrite_one (u ∷ us)) l
    fused [] = refl
    fused (o ∷ l) = ap (λ (t : List Setting). overwrite_one (u ∷ us) o ∷ t) (fused l)

-- No later update is of the kind.
overwrite_one-absent :
    (us : List Setting) (o : Setting) → index_of o.which (kinds us) ≡ none → overwrite_one us o ≡ o
overwrite_one-absent [] o h = refl
overwrite_one-absent (u ∷ us) o h = elim (Bool-cases (o.which == u.which)) [
  | inl e ↦ absurd (ground (arith, e))
  | inr e ↦ rw e (overwrite_one-absent us o (ground (arith, e)))
]

-- With updates of different kinds the last one of a kind is the first one.
pub overwrite_one-pick :
    (us : List Setting) (o : Setting) → Distinct (kinds us) → overwrite_one us o ≡ pick us o
overwrite_one-pick [] o d = refl
overwrite_one-pick (u ∷ us) o d = elim (Bool-cases (o.which == u.which)) [
  | inl e ↦
      let flip : (u.which == o.which) ≡ true = ground (arith, e) in
      rw (e, flip, pick) (overwrite_one-absent us u d.0)
  | inr e ↦
      let flip : (u.which == o.which) ≡ false = ground (arith, e) in
      rw (e, flip, pick) (overwrite_one-pick us o d.1)
]

pub InOrder-overwrite :
    (u : Setting) (i : ℕ) (l : List Setting) → InOrder i l → InOrder i (overwrite u l)
InOrder-overwrite u i [] h = tt
InOrder-overwrite u i (o ∷ l) h = (
  elim (Bool-cases (o.which == u.which)) [
    | inl e ↦ rw e (sym ((==_iff o.which u.which).0 e) ∙ h.0)
    | inr e ↦ rw e h.0
  ],
  InOrder-overwrite u (suc i) l h.1,
)

pub map-ext :
    (f g : Setting → Setting) (l : List Setting) → ((o : Setting) → f o ≡ g o) → map f l ≡ map g l
map-ext f g [] h = refl
map-ext f g (o ∷ l) h = rw (h o, map-ext f g l h) refl

pub length-map : (f : Setting → Setting) (l : List Setting) → length (map f l) ≡ length l
length-map f [] = refl
length-map f (o ∷ l) = ap suc (length-map f l)
