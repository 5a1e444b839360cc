-- ===== src/Config/Loaded.antt =====
-- CollabVmServer.hpp and Database/Database.cpp: the settings in memory are those that a restart loads.
use collab_vm_server.Base.{
  ℕ, zero, suc, ◌+◌, ◌%◌, ◌^◌, ◌<◌, ◌≤◌, ◌≡◌, refl, sym, ap, subst, ◌∙◌, true, false, some, List,
  [], ◌∷◌, ◌++◌, append_assoc, append-nil, length, length-append, length-set, set, take, ltb,
  lt→ltb, ◌==◌, ==_iff, arith, Bool-cases, inl, inr, All,
}
use collab_vm_server.Message.{Text}
use collab_vm_server.Config.{
  Setting, Rows, update_row, insert_row, cleared, save_server_settings, fill_missing, load_rows,
}
use collab_vm_server.Config.Updates.{InOrder, take-set, take-all}
use collab_vm_server.Config.Stored.{overwrite, overwrite_all, InOrder-overwrite}

module _ (default : ℕ → Text) (write : Setting → Text) (read : Text → Setting)
    (read-write : (s : Setting) → read (write s) ≡ s) where
  -- The rows of the settings from number `i` on.
  abbrev pub rows_of : ℕ → List Setting → Rows
  rows_of i [] = []
  rows_of i (s ∷ l) = (i, write s) ∷ rows_of (suc i) l

  update_row-rows_of :
      (u : Setting) (i : ℕ) (l : List Setting)
      → InOrder i l
      → update_row u.which (write u) (rows_of i l) ≡ rows_of i (overwrite u l)
  update_row-rows_of u i [] h = refl
  update_row-rows_of u i (o ∷ l) h =
      let same : (i == u.which) ≡ (o.which == u.which) = ap (λ (n : ℕ). n == u.which) (sym h.0) in
      elim (Bool-cases (o.which == u.which)) [
        | inl e ↦ rw (same, e, update_row-rows_of u (suc i) l h.1) refl
        | inr e ↦ rw (same, e, update_row-rows_of u (suc i) l h.1) refl
      ]

  pub save-rows_of :
      (us : List Setting) (l : List Setting)
      → InOrder 0 l
      → All (λ (u : Setting). u.which < 2 ^ 8) us
      → save_server_settings default write us (rows_of 0 l) ≡ rows_of 0 (overwrite_all us l)
  save-rows_of [] l h b = refl
  save-rows_of (u ∷ us) l h b =
      let small : u.which % 2 ^ 8 ≡ u.which = omega (arith, b.0) in
      ap (λ (n : ℕ). save_server_settings default write us (update_row n (write u) (rows_of 0 l)))
        small
      ∙ ap (save_server_settings default write us) (update_row-rows_of u 0 l h)
      ∙ save-rows_of us (overwrite u l) (InOrder-overwrite u 0 l h) b.1

  rows_of-append :
      (i : ℕ) (l : List Setting) (s : Setting)
      → rows_of i (l ++ s ∷ []) ≡ rows_of i l ++ (i + length l, write s) ∷ []
  rows_of-append i [] s = ap (λ (n : ℕ). (n, write s) ∷ []) (omega arith)
  rows_of-append i (o ∷ l) s =
      ap (λ (t : Rows). (i, write o) ∷ t)
        (rows_of-append (suc i) l s
          ∙ ap (λ (n : ℕ). rows_of (suc i) l ++ (n, write s) ∷ []) (omega arith))

  -- Rows that agree with their ids are read into their places, and the table stays as it is.
  pub load_rows-rows_of :
      (i : ℕ) (l fields : List Setting) (rows : Rows)
      → InOrder i l
      → i + length l ≤ length fields
      → (rest : List Setting) × (load_rows default write read (rows_of i l) i fields rows
          ≡ some (i + length l, rest, rows))
        × (take (i + length l) rest ≡ take i fields ++ l)
        × (length rest ≡ length fields)
  load_rows-rows_of i [] fields rows h b = (
    fields,
    ap (λ (n : ℕ). some (n, fields, rows)) (omega arith),
    ap (λ (n : ℕ). take n fields) (omega arith) ∙ sym (append-nil (take i fields)),
    refl,
  )
  load_rows-rows_of i (o ∷ l) fields rows h b =
      let below : i < length fields = omega arith in
      let (rest, e, t, n) =
        load_rows-rows_of (suc i) l (set fields i o) rows h.1
          (omega (arith, length-set fields i o)) in
      let same : (read (write o)).which ≡ i = ap (λ (s : Setting). s.which) (read-write o) ∙ h.0 in
      let equal : ((read (write o)).which == i) ≡ true = (==_iff (read (write o)).which i).1 same in
      (
        rest,
        rw (lt→ltb i (length fields) below, equal)
            (ap
                (λ (s : Setting).
                  load_rows default write read (rows_of (suc i) l) (suc i) (set fields i s) rows)
                (read-write o)
              ∙ e
              ∙ ap (λ (k : ℕ). some (k, rest, rows)) (omega arith)),
        ap (λ (k : ℕ). take k rest) (omega arith)
            ∙ t
            ∙ ap (λ (x : List Setting). x ++ l) (take-set i fields o below)
            ∙ append_assoc (take i fields) (o ∷ []) l,
        n ∙ length-set fields i o,
      )

  insert_row-last :
      (n i : ℕ) (b : Text) (l : List Setting)
      → i + length l ≤ n
      → insert_row n b (rows_of i l) ≡ some (rows_of i l ++ (n, b) ∷ [])
  insert_row-last n i b [] h = refl
  insert_row-last n i b (o ∷ l) h =
      let later = insert_row-last n (suc i) b l (omega (arith, h)) in
      let other : (i == n) ≡ false = ground arith in
      let above : ltb n i ≡ false = ground arith in rw (other, above) (rw later refl)

  -- The defaults of the settings from number `i` on.
  abbrev pub defaults : ℕ → ℕ → List Setting
  defaults i zero = []
  defaults i (suc k) = cleared default i ∷ defaults (suc i) k

  pub InOrder-defaults :
      (i k : ℕ) (l : List Setting) → InOrder i l → InOrder i (l ++ defaults (i + length l) k)
  InOrder-defaults i zero l h = rw (append-nil l) h
  InOrder-defaults i (suc k) [] h = (
    omega arith,
    subst (λ (n : ℕ). InOrder (suc i) (defaults n k)) (omega arith)
        (InOrder-defaults (suc i) k [] tt),
  )
  InOrder-defaults i (suc k) (o ∷ l) h = (
    h.0,
    subst (λ (n : ℕ). InOrder (suc i) (l ++ defaults n (suc k))) (omega arith)
        (InOrder-defaults (suc i) (suc k) l h.1),
  )

  pub fill_missing-defaults :
      (k : ℕ) (l fields : List Setting)
      → length fields ≡ length l + k
      → take (length l) fields ≡ l
      → fill_missing default write k (length l) fields (rows_of 0 l)
        ≡ some (l ++ defaults (length l) k, rows_of 0 (l ++ defaults (length l) k))
  fill_missing-defaults zero l fields n t =
      let whole : fields ≡ l =
        sym (take-all fields) ∙ ap (λ (j : ℕ). take j fields) (n ∙ omega arith) ∙ t in
      rw (whole, append-nil l) refl
  fill_missing-defaults (suc k) l fields n t =
      let c = cleared default (length l) in
      let more : length (l ++ c ∷ []) ≡ suc (length l) = length-append l (c ∷ []) ∙ omega arith in
      let step =
        fill_missing-defaults k (l ++ c ∷ []) (set fields (length l) c)
          (length-set fields (length l) c ∙ n ∙ omega (arith, more))
          (ap (λ (j : ℕ). take j (set fields (length l) c)) more
            ∙ take-set (length l) fields c (omega (arith, n))
            ∙ ap (λ (x : List Setting). x ++ c ∷ []) t) in
      let row : rows_of 0 l ++ (length l, write c) ∷ [] ≡ rows_of 0 (l ++ c ∷ []) =
        ap (λ (j : ℕ). rows_of 0 l ++ (j, write c) ∷ []) (omega arith)
        ∙ sym (rows_of-append 0 l c) in
      let all : (l ++ c ∷ []) ++ defaults (length (l ++ c ∷ [])) k
          ≡ l ++ c ∷ defaults (suc (length l)) k =
        append_assoc l (c ∷ []) (defaults (length (l ++ c ∷ [])) k)
        ∙ ap (λ (j : ℕ). l ++ c ∷ defaults j k) more in
      rw (insert_row-last (length l) 0 (write c) l (omega arith)) (
        ap
          (λ (j : ℕ).
            fill_missing default write k j (set fields (length l) c)
              (rows_of 0 l ++ (length l, write c) ∷ []))
          (sym more)
        ∙ ap (fill_missing default write k (length (l ++ c ∷ [])) (set fields (length l) c)) row
        ∙ step
        ∙ ap (λ (x : List Setting). some (x, rows_of 0 x)) all)
