-- ===== src/Panel/Viewers.antt =====
-- CollabVmServer.hpp: the viewers of a list and the flags of the sockets.
use collab_vm_server.Base.{
  ℕ, suc, ◌+◌, ◌-◌, ◌≡◌, sym, ap, ◌∙◌, subst, Bool, true, false, List, [], ◌∷◌, ◌++◌, ◌==◌, ==_refl,
  if◌then◌else◌, Bool-cases, inl, inr, arith,
}
use collab_vm_server.VmList.{erase_viewer}

-- How often a socket stands among the viewers.
abbrev pub count : ℕ → List ℕ → ℕ
count u [] = 0
count u (w ∷ ws) = let rest = count u ws in if w == u then suc rest else rest

abbrev pub once : Bool → ℕ
once b = if b then 1 else 0

pub count-append : (u w : ℕ) (ws : List ℕ) → count u (ws ++ w ∷ []) ≡ count u ws + once (w == u)
count-append u w [] = ground arith
count-append u w (x ∷ ws) = ground (arith, count-append u w ws)

pub count-erase_viewer :
    (u w : ℕ) (ws : List ℕ) → count u (erase_viewer w ws) ≡ count u ws - once (w == u)
count-erase_viewer u w [] = ground arith
count-erase_viewer u w (x ∷ ws) = ground (arith, count-erase_viewer u w ws)

-- The viewers are the sockets with the flag, each once.
abbrev pub Views : (ℕ → Bool) → List ℕ → Type 0
Views flag ws = ((d : ℕ) → count d ws ≡ once (flag d))

pub Views-append :
    (c : ℕ) (flag flag' : ℕ → Bool) (ws : List ℕ)
    → Views flag ws
    → flag c ≡ false
    → flag' c ≡ true
    → ((d : ℕ) → (d == c) ≡ false → flag' d ≡ flag d)
    → Views flag' (ws ++ c ∷ [])
Views-append c flag flag' ws v off on others d = elim (Bool-cases (d == c)) [
  | inl here ↦
      let e : c ≡ d = ground arith in
      subst (λ k. count k (ws ++ c ∷ []) ≡ once (flag' k)) e
        (count-append c c ws ∙ rw (v c, off, on, ==_refl c) (omega arith))
  | inr other ↦
      let flipped : (c == d) ≡ false = ground arith in
      count-append d c ws ∙ rw (v d, others d other, flipped) (omega arith)
]

pub Views-erase :
    (c : ℕ) (flag flag' : ℕ → Bool) (ws : List ℕ)
    → Views flag ws
    → flag c ≡ true
    → flag' c ≡ false
    → ((d : ℕ) → (d == c) ≡ false → flag' d ≡ flag d)
    → Views flag' (erase_viewer c ws)
Views-erase c flag flag' ws v on off others d = elim (Bool-cases (d == c)) [
  | inl here ↦
      let e : c ≡ d = ground arith in
      subst (λ k. count k (erase_viewer c ws) ≡ once (flag' k)) e
        (count-erase_viewer c c ws ∙ rw (v c, off, on, ==_refl c) (omega arith))
  | inr other ↦
      let flipped : (c == d) ≡ false = ground arith in
      count-erase_viewer d c ws ∙ rw (v d, others d other, flipped) (omega arith)
]

pub Views-same :
    (flag flag' : ℕ → Bool) (ws : List ℕ)
    → Views flag ws
    → ((d : ℕ) → flag' d ≡ flag d)
    → Views flag' ws
Views-same flag flag' ws v e d = v d ∙ ap once (sym (e d))
