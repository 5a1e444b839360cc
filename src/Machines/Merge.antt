-- ===== src/Machines/Merge.antt =====
-- AdminVirtualMachine.hpp: `GetInitialSettings` against a search for each setting.
use collab_vm_server.Base.{
  ℕ, zero, suc, ◌+◌, ◌<◌, ◌≤◌, ◌≡◌, refl, sym, ap, subst, ◌∙◌, true, false, Option, none, some,
  List, [], ◌∷◌, length, get_elem?, ltb, ◌==◌, ==_iff, arith, Bool-cases, inl, inr, All,
}
use collab_vm_server.Message.{Text}
use collab_vm_server.Config.{Setting, cleared, find_setting}
use collab_vm_server.Machines.{skip_below, head_or_default, merge_settings, get_initial_settings}

-- The numbers of the settings rise, from `i` on at the earliest.
abbrev pub Rising : ℕ → List Setting → Type 0
Rising i [] = Unit {0}
Rising i (s ∷ l) = (i ≤ s.which) × Rising (suc s.which) l

module _ (default : ℕ → Text) where
  -- The setting of the number, or its default.
  abbrev pub setting_at : ℕ → List Setting → Setting
  setting_at i l = elim (find_setting i l) [ none ↦ cleared default i | some s ↦ s ]

  find_setting-above : (i j : ℕ) (l : List Setting) → i < j → Rising j l → find_setting i l ≡ none
  find_setting-above i j [] h r = refl
  find_setting-above i j (s ∷ l) h r =
      let later = find_setting-above i (suc s.which) l (omega (arith, r.0)) r.1 in
      let other : (s.which == i) ≡ false = ground (arith, r.0) in rw other later

  skip_below-Rising : (i j : ℕ) (l : List Setting) → Rising j l → Rising i (skip_below i l)
  skip_below-Rising i j [] r = tt
  skip_below-Rising i j (s ∷ l) r = elim (Bool-cases (ltb s.which i)) [
    | inl e ↦ rw e (skip_below-Rising i (suc s.which) l r.1)
    | inr e ↦ rw e (ground arith, r.1)
  ]

  find_setting-skip_below :
      (k i : ℕ) (l : List Setting) → i ≤ k → find_setting k (skip_below i l) ≡ find_setting k l
  find_setting-skip_below k i [] h = refl
  find_setting-skip_below k i (s ∷ l) h = elim (Bool-cases (ltb s.which i)) [
    | inl e ↦
        let other : (s.which == k) ≡ false = ground (arith, e) in
        rw (e, other) (find_setting-skip_below k i l h)
    | inr e ↦ rw e refl
  ]

  head_or_default-setting_at :
      (i : ℕ) (l : List Setting) → Rising i l → head_or_default default i l ≡ setting_at i l
  head_or_default-setting_at i [] r = refl
  head_or_default-setting_at i (s ∷ l) r = elim (Bool-cases (s.which == i)) [
    | inl e ↦ rw (e, setting_at) refl
    | inr e ↦
        rw (e, setting_at, find_setting-above i (suc s.which) l (ground (arith, r.0)) r.1) refl
  ]

  setting_at-skip_below :
      (k i : ℕ) (l : List Setting) → i ≤ k → setting_at k (skip_below i l) ≡ setting_at k l
  setting_at-skip_below k i l h =
      ap
        (λ (o : Option Setting). elim o as (λ x. Setting) [ none ↦ cleared default k | some s ↦ s ])
        (find_setting-skip_below k i l h)

  merge_settings-get :
      (left i k : ℕ) (l : List Setting) (j : ℕ)
      → Rising j l
      → k < left
      → get_elem? (merge_settings default left i l) k ≡ some (setting_at (i + k) l)
  merge_settings-get zero i k l j r h = absurd (omega (arith, h))
  merge_settings-get (suc left) i zero l j r h = ap some (
      head_or_default-setting_at i (skip_below i l) (skip_below-Rising i j l r)
      ∙ setting_at-skip_below i i l (omega arith)
      ∙ ap (λ (n : ℕ). setting_at n l) (omega arith))
  merge_settings-get (suc left) i (suc k) l j r h =
      merge_settings-get left (suc i) k (skip_below i l) i (skip_below-Rising i j l r)
        (omega (arith, h))
      ∙ ap some (
          setting_at-skip_below (suc i + k) i l (omega arith)
          ∙ ap (λ (n : ℕ). setting_at n l) (omega arith))

  -- The settings of one number less than another's are rising too.
  room :
      (i n : ℕ) (l : List Setting)
      → Rising i l
      → All (λ (s : Setting). s.which < n) l
      → i ≤ n
      → i + length l ≤ n
  room i n [] r b h = omega (arith, h)
  room i n (s ∷ l) r b h = omega (arith, r.0, room (suc s.which) n l r.1 b.1 (omega (arith, b.0)))

  first_number :
      (i : ℕ) (s : Setting) (l : List Setting)
      → Rising i (s ∷ l)
      → All (λ (t : Setting). t.which < i + suc (length l)) (s ∷ l)
      → s.which ≡ i
  first_number i s l r b =
      omega (arith, r.0, room (suc s.which) (i + suc (length l)) l r.1 b.1 (omega (arith, b.0)))

  full-get :
      (i k : ℕ) (l : List Setting)
      → Rising i l
      → All (λ (s : Setting). s.which < i + length l) l
      → k < length l
      → get_elem? l k ≡ some (setting_at (i + k) l)
  full-get i k [] r b h = absurd (omega (arith, h))
  full-get i zero (s ∷ l) r b h =
      let first = first_number i s l r b in
      let here : (s.which == i + 0) ≡ true = ground (arith, first) in rw (setting_at, here) refl
  full-get i (suc k) (s ∷ l) r b h =
      let first = first_number i s l r b in
      let other : (s.which == i + suc k) ≡ false = ground (arith, first) in
      let below : All (λ (t : Setting). t.which < suc i + length l) l =
        subst (λ (n : ℕ). All (λ (t : Setting). t.which < n) l) (omega arith) b.1 in
      let rising : Rising (suc i) l = subst (λ (n : ℕ). Rising (suc n) l) first r.1 in
      let step : get_elem? l k ≡ some (setting_at (suc i + k) l) =
        full-get (suc i) k l rising below (omega (arith, h)) in
      let at : suc i + k ≡ i + suc k = omega arith in
      let skipped : setting_at (i + suc k) (s ∷ l) ≡ setting_at (i + suc k) l =
        rw (setting_at, other) refl in
      step ∙ ap (λ (n : ℕ). some (setting_at n l)) at ∙ ap some (sym skipped)

  -- From settings whose numbers rise and are below the number of fields, GetInitialSettings makes a list
  -- that has at each number the setting of that number, or its default where there is none.
  pub get_initial_settings-get :
      (fields_count k : ℕ) (l : List Setting)
      → Rising 0 l
      → All (λ (s : Setting). s.which < fields_count) l
      → k < fields_count
      → get_elem? (get_initial_settings default fields_count l) k ≡ some (setting_at k l)
  unfolding get_initial_settings
  get_initial_settings-get fields_count k l r b h = elim (Bool-cases (length l == fields_count)) [
    | inl e ↦
        let n : length l ≡ fields_count = (==_iff (length l) fields_count).0 e in
        rw e (
          full-get 0 k l r
            (subst (λ (m : ℕ). All (λ (s : Setting). s.which < m) l) (omega (arith, n)) b)
            (omega (arith, n, h))
          ∙ ap (λ (m : ℕ). some (setting_at m l)) (omega arith))
    | inr e ↦ rw e (
        merge_settings-get fields_count 0 k l 0 r h
        ∙ ap (λ (m : ℕ). some (setting_at m l)) (omega arith))
  ]
