-- ===== src/Turn/Queue.antt =====
-- TurnController.hpp: the turn queue against a plain line of users.
use collab_vm_server.Base.{
  ==_refl, subst, ℕ, ◌≡◌, refl, sym, ap, ◌∙◌, Bool, true, false, Option, none, some, List, [], ◌∷◌,
  ◌++◌, if◌then◌else◌, Option-cases, inl, inr, ◌>>=◌, index_of, erase, erase_absent, not,
}
use collab_vm_server.Timer.{TimerApi}
use collab_vm_server.Turn.{
  TurnController, set_turn_time, request_turn, remove_user, pause_turn_timer, resume_turn_timer,
  end_current_turn, clear,
}
use collab_vm_server.Turn.Placed.{
  SameLine-WellPlaced, pause_turn_timer-SameLine, resume_turn_timer-SameLine, settle-SameLine,
  without-WellPlaced, remove_user-queued, remove_user-absent, joined-WellPlaced,
  request_turn-SameLine, clear_lem,
}
use collab_vm_server.Turn.Positions.{WellPlaced, settle, without}

-- The operations of the controller, and the timer's part. The timer's handler calls `RemoveUser`.
pub data Op : Type 0 where
  requests removes : ℕ → Op
  sets_time : ℕ → Op
  pauses resumes ends clears elapses : Op

abbrev pub is_some : Option ℕ → Bool
is_some none = false
is_some (some x) = true

-- What an operation does to the line; `none` where `EndCurrentTurn` uses a reference that is invalid.
abbrev pub line_step : Op → List ℕ → Option (List ℕ)
line_step (requests u) q = some (if is_some (index_of u q) then q else q ++ u ∷ [])
line_step (removes u) q = some (erase u q)
line_step (sets_time t) q = some q
line_step pauses q = some q
line_step resumes q = some q
line_step ends [] = some []
line_step ends (u ∷ q) = none
line_step clears q = some []
line_step elapses q = some q

abbrev pub line_run : List (ℕ × Op) → List ℕ → Option (List ℕ)
line_run [] q = some q
line_run ((now, op) ∷ ops) q = line_step op q >>= λ q'. line_run ops q'

module _ (api : TimerApi ℕ) where
  open api use {Timer, elapse}

  unfoldable pub step : ℕ → Op → TurnController Timer → Option (TurnController Timer)
  step now (requests u) s = some (request_turn api now u s).0
  step now (removes u) s = remove_user api now u s >>= λ r. some r.0
  step now (sets_time t) s = some (set_turn_time t s)
  step now pauses s = some (pause_turn_timer api now s)
  step now resumes s = some (resume_turn_timer api now s)
  step now ends s = end_current_turn api now s
  step now clears s = some (clear api s)
  step now elapses s = some (record s { turn_timer = elapse s.turn_timer })

  pub run : List (ℕ × Op) → TurnController Timer → Option (TurnController Timer)
  run [] s = some s
  run ((now, op) ∷ ops) s = step now op s >>= λ t. run ops t

  -- In a well-placed state `RemoveUser` does not fault: it takes the user out of the queue, leaves
  -- the others in order with the right positions, and returns whether the user was queued.
  pub remove_user_lem :
      (now u : ℕ) (s : TurnController Timer)
      → WellPlaced s
      → (t : TurnController Timer) × (remove_user api now u s
          ≡ some (t, is_some (index_of u s.turn_queue)))
        × (t.turn_queue ≡ erase u s.turn_queue)
        × WellPlaced t
  remove_user_lem now u s w = elim (Option-cases (index_of u s.turn_queue)) [
    | inl e ↦ (s, rw e (remove_user-absent api now u s w e), sym (erase_absent u s.turn_queue e), w)
    | inr (p, e) ↦
        let same = settle-SameLine api now u p (without api now u p s) in
        (
          settle api now u p (without api now u p s),
          rw e (remove_user-queued api now u p s w e),
          same.queue_eq,
          SameLine-WellPlaced api same (without-WellPlaced api now u p s w),
        )
  ]

  -- A user who is not queued gets the last place; for any other `RequestTurn` does nothing.
  pub request_turn_lem :
      (now u : ℕ) (s : TurnController Timer)
      → WellPlaced s
      → ((request_turn api now u s).1 ≡ not (is_some (index_of u s.turn_queue)))
        × ((request_turn api now u s).0.turn_queue
            ≡ (if is_some (index_of u s.turn_queue) then s.turn_queue else s.turn_queue ++ u ∷ []))
        × WellPlaced (request_turn api now u s).0
  unfolding request_turn
  request_turn_lem now u s w = elim (Option-cases (index_of u s.turn_queue)) [
    | inl e ↦
        let free = w.placed u ∙ e in
        let same = request_turn-SameLine api now u s free in
        (
          rw (free, request_turn) (rw e),
          rw e same.queue_eq,
          SameLine-WellPlaced api same (joined-WellPlaced api u s w e),
        )
    | inr (p, e) ↦
        let taken = w.placed u ∙ e in
        (
          rw (taken, request_turn) (rw e),
          rw (taken, request_turn) (rw e),
          rw (taken, request_turn) w,
        )
  ]

  -- The controller does with its queue what the line does, and faults where the line has no step.
  abbrev pub Refines : Option (List ℕ) → Option (TurnController Timer) → Type 0
  Refines none r = r ≡ none
  Refines (some q) r = (t : TurnController Timer) × (r ≡ some t) × (t.turn_queue ≡ q) × WellPlaced t

  removes-Refines :
      (now u : ℕ) (s : TurnController Timer)
      → WellPlaced s
      → Refines (line_step (removes u) s.turn_queue) (remove_user api now u s >>= λ r. some r.0)
  removes-Refines now u s w = let (t, e, q, v) = remove_user_lem now u s w in (t, rw e, q, v)

  -- The front of the queue has the position 0.
  pub front_placed :
      (u : ℕ) (q : List ℕ) (s : TurnController Timer)
      → s.turn_queue ≡ u ∷ q
      → WellPlaced s
      → s.position u ≡ some 0
  front_placed u q s e w = w.placed u ∙ ap (index_of u) e ∙ rw (==_refl u) refl

  pub ends-Refines :
      (now : ℕ) (s : TurnController Timer) (q : List ℕ)
      → s.turn_queue ≡ q
      → WellPlaced s
      → Refines (line_step ends q) (end_current_turn api now s)
  unfolding end_current_turn
  ends-Refines now s [] e w = (s, simp (e, end_current_turn) refl, e, w)
  ends-Refines now s (u ∷ q) e w = rw (e, end_current_turn) (rw (front_placed u q s e w) refl)

  pub step-Refines :
      (now : ℕ) (op : Op) (s : TurnController Timer)
      → WellPlaced s
      → Refines (line_step op s.turn_queue) (step now op s)
  unfolding step set_turn_time
  step-Refines now (requests u) s w =
      let (b, q, v) = request_turn_lem now u s w in ((request_turn api now u s).0, refl, q, v)
  step-Refines now (removes u) s w = removes-Refines now u s w
  step-Refines now (sets_time t) s w =
      (set_turn_time t s, refl, refl, record { placed = w.placed; distinct = w.distinct })
  step-Refines now pauses s w =
      let same = pause_turn_timer-SameLine api now s in
      (pause_turn_timer api now s, refl, same.queue_eq, SameLine-WellPlaced api same w)
  step-Refines now resumes s w =
      let same = resume_turn_timer-SameLine api now s in
      (resume_turn_timer api now s, refl, same.queue_eq, SameLine-WellPlaced api same w)
  step-Refines now ends s w = ends-Refines now s s.turn_queue refl w
  step-Refines now clears s w =
      let (q, v) = clear_lem api s s.turn_queue refl w in (clear api s, refl, q, v)
  step-Refines now elapses s w = (
    record s { turn_timer = elapse s.turn_timer },
    refl,
    refl,
    record { placed = w.placed; distinct = w.distinct },
  )

  -- Where the line has a step the controller has one too.
  pub step-line_step :
      (now : ℕ) (op : Op) (s : TurnController Timer) (q : List ℕ)
      → WellPlaced s
      → line_step op s.turn_queue ≡ some q
      → Refines (some q) (step now op s)
  step-line_step now op s q w e =
      subst (λ (l : Option (List ℕ)). Refines l (step now op s)) e (step-Refines now op s w)

  -- Whatever the users, the administrators and the timer do, in any order: the controller faults
  -- exactly if `EndCurrentTurn` is called while somebody is queued, and otherwise its queue is that
  -- of the plain line, and every user's position is its place in it.
  pub run-line_run :
      (ops : List (ℕ × Op)) (s : TurnController Timer)
      → WellPlaced s
      → Refines (line_run ops s.turn_queue) (run ops s)
  unfolding run
  run-line_run [] s w = (s, refl, refl, w)
  run-line_run ((now, op) ∷ ops) s w = elim (Option-cases (line_step op s.turn_queue)) [
    | inl e ↦
        let faults : step now op s ≡ none =
          subst (λ (l : Option (List ℕ)). Refines l (step now op s)) e (step-Refines now op s w) in
        rw (e, faults) refl
    | inr (q, e) ↦
        let (t, r, same, v) = step-line_step now op s q w e in
        rw (e, r)
          (subst (λ (l : List ℕ). Refines (line_run ops l) (run ops t)) same (run-line_run ops t v))
  ]
