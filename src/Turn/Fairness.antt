-- ===== src/Turn/Fairness.antt =====
-- TurnController.hpp: the order in which the users get their turns.
use collab_vm_server.Base.{
  Option, none, subst, Option-cases, inl, inr, sym, ap, ◌∙◌, ℕ, ◌-◌, ◌≤◌, ◌≡◌, some, List, [], ◌∷◌,
  arith, index_of, erase, Distinct, index_of-append_absent,
}
use collab_vm_server.Timer.{TimerApi}
use collab_vm_server.Turn.{TurnController}
use collab_vm_server.Turn.Positions.{WellPlaced}
use collab_vm_server.Turn.Queue.{
  step, Refines, step-Refines, step-line_step, Op, requests, removes, sets_time, pauses, resumes,
  ends, clears, elapses, line_step,
}

index_of-erase-le :
    (u v i j : ℕ) (q : List ℕ)
    → Distinct q
    → index_of v q ≡ some i
    → index_of v (erase u q) ≡ some j
    → j ≤ i
index_of-erase-le u v i j [] d h k = ground arith
index_of-erase-le u v i j (x ∷ q) d h k =
    ground (arith, index_of-erase-le u v (i - 1) (j - 1) q d.1)

some_line : (q q' : List ℕ) → some q ≡ some q' → q ≡ q'
some_line q q' e = cc

line_step-fair :
    (op : Op) (v i j : ℕ) (q q' : List ℕ)
    → Distinct q
    → line_step op q ≡ some q'
    → index_of v q ≡ some i
    → index_of v q' ≡ some j
    → j ≤ i
line_step-fair (requests u) v i j q q' d e h k = ground (arith, index_of-append_absent v u q)
line_step-fair (removes u) v i j q q' d e h k =
    index_of-erase-le u v i j q d h (ap (index_of v) (some_line (erase u q) q' e) ∙ k)
line_step-fair ends v i j [] q' d e h k = ground arith
line_step-fair ends v i j (x ∷ q) q' d e h k = absurd (cc)
line_step-fair clears v i j q q' d e h k = ground arith
line_step-fair (sets_time t) v i j q q' d e h k = ground arith
line_step-fair pauses v i j q q' d e h k = ground arith
line_step-fair resumes v i j q q' d e h k = ground arith
line_step-fair elapses v i j q q' d e h k = ground arith

module _ (api : TimerApi ℕ) where
  open api use {Timer}

  same_state : (s t : TurnController Timer) → some s ≡ some t → s ≡ t
  same_state s t e = cc

  -- An operation that succeeds has a step of the line, which has put a user where its position says.
  moved_to :
      (now : ℕ) (op : Op) (v j : ℕ) (s t : TurnController Timer)
      → WellPlaced s
      → step api now op s ≡ some t
      → t.position v ≡ some j
      → (q : List ℕ) × (line_step op s.turn_queue ≡ some q) × (index_of v q ≡ some j)
  moved_to now op v j s t w r k = elim (Option-cases (line_step op s.turn_queue)) [
    | inl e ↦
        let faults : step api now op s ≡ none =
          subst (λ (l : Option (List ℕ)). Refines api l (step api now op s)) e
            (step-Refines api now op s w) in
        absurd (cc (sym faults ∙ r))
    | inr (q, e) ↦
        let (t', r', same, w') = step-line_step api now op s q w e in
        (
          q,
          e,
          ap (index_of v) (sym same)
              ∙ sym (w'.placed v)
              ∙ ap (λ (x : TurnController Timer). x.position v) (same_state t' t (sym r' ∙ r))
              ∙ k,
        )
  ]

  -- Nobody overtakes: no operation moves a user back who was in the queue and still is.
  pub step-fair :
      (now : ℕ) (op : Op) (v i j : ℕ) (s t : TurnController Timer)
      → WellPlaced s
      → step api now op s ≡ some t
      → s.position v ≡ some i
      → t.position v ≡ some j
      → j ≤ i
  step-fair now op v i j s t w r h k =
      let (q, e, at) = moved_to now op v j s t w r k in
      line_step-fair op v i j s.turn_queue q w.distinct e (sym (w.placed v) ∙ h) at

  -- The turn timer runs out for each of these users in turn, and its handler removes the user.
  abbrev pub turns_over : (ℕ → ℕ) → List ℕ → List (ℕ × Op)
  turns_over clock [] = []
  turns_over clock (u ∷ us) = (clock u, elapses) ∷ (clock u, removes u) ∷ turns_over clock us
