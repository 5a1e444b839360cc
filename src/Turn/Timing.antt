-- ===== src/Turn/Timing.antt =====
-- TurnController.hpp: whom the turn timer waits for, and how much time a pause keeps.
use collab_vm_server.Base.{
  ap, Option, sym, ◌∙◌, ℕ, zero, suc, ◌+◌, ◌-◌, ◌≡◌, refl, ◌⊎◌, inl, inr, Bool, true, false, none,
  some, List, [], ◌∷◌, ◌++◌, arith, index_of, erase, Option-cases, Bool-cases, ◌==◌, if◌then◌else◌,
  ◌>>=◌, >>=-eq-some, length, length-append, subst,
}
use collab_vm_server.Timer.{TimerApi}
use collab_vm_server.Turn.{
  TurnController, notify, user_added, is_paused, get_time_remaining, update_current_turn,
  request_turn, remove_user, pause_turn_timer, resume_turn_timer, end_current_turn, clear,
  set_turn_time,
}
use collab_vm_server.Turn.Positions.{WellPlaced, settle, without}
use collab_vm_server.Turn.Queue.{
  Op, requests, removes, sets_time, pauses, resumes, ends, clears, elapses, step, front_placed,
}
use collab_vm_server.Turn.Placed.{remove_user-queued, remove_user-absent, joined}

module _ (api : TimerApi ℕ) where
  open api use {Timer, expiry, waits, expires_at, async_wait, cancel, elapse}

  -- The handlers that may wait: none, or the current user's. A handler may outlive an empty queue.
  abbrev pub Waits : List ℕ → List ℕ → Type 0
  Waits handlers queue =
      (handlers ≡ [])
      ⊎ ((u : ℕ) × (handlers ≡ u ∷ []) × ((queue ≡ []) ⊎ ((rest : List ℕ) × (queue ≡ u ∷ rest))))

  pub record Timed (s : TurnController Timer) : Type 0 where
    pub quiet : is_paused s ≡ true → waits s.turn_timer ≡ []
    pub armed : Waits (waits s.turn_timer) s.turn_queue

  -- What `UpdateCurrentTurn` does to the timer, and what it leaves alone.
  module _ (now t : ℕ) (s : TurnController Timer) where
    pub update_current_turn-kept :
        ((update_current_turn api now t s).turn_queue ≡ s.turn_queue)
        × ((update_current_turn api now t s).paused_time ≡ s.paused_time)
    unfolding update_current_turn
    update_current_turn-kept = ground arith

    update_current_turn-empty :
        s.turn_queue ≡ [] → (update_current_turn api now t s).turn_timer ≡ s.turn_timer
    unfolding update_current_turn
    update_current_turn-empty e = ground arith

    update_current_turn-paused :
        is_paused s ≡ true → (update_current_turn api now t s).turn_timer ≡ s.turn_timer
    unfolding update_current_turn
    update_current_turn-paused e = ground arith

    pub update_current_turn-running :
        (u : ℕ) (q : List ℕ)
        → s.turn_queue ≡ u ∷ q
        → is_paused s ≡ false
        → (update_current_turn api now t s).turn_timer
          ≡ async_wait u (expires_at (now + t) s.turn_timer)
    unfolding update_current_turn
    update_current_turn-running u q e r = ground arith

  pub waits-armed : (u at : ℕ) (tm : Timer) → waits (async_wait u (expires_at at tm)) ≡ u ∷ []
  waits-armed u at tm = rw (api.waits-async_wait u (expires_at at tm), api.waits-expires_at at tm)

  pub expiry-armed : (u at : ℕ) (tm : Timer) → expiry (async_wait u (expires_at at tm)) ≡ at
  expiry-armed u at tm =
      rw (api.expiry-async_wait u (expires_at at tm), api.expiry-expires_at at tm)

  update_current_turn-Timed :
      (now t : ℕ) (s : TurnController Timer) (q : List ℕ)
      → s.turn_queue ≡ q
      → (is_paused s ≡ true → waits s.turn_timer ≡ [])
      → (q ≡ [] → Waits (waits s.turn_timer) s.turn_queue)
      → Timed (update_current_turn api now t s)
  update_current_turn-Timed now t s [] e quiet armed =
      let kept = update_current_turn-kept now t s in
      let same = update_current_turn-empty now t s e in
      record { quiet = rw (kept.1, same) quiet; armed = rw (kept.0, same) (armed refl) }
  update_current_turn-Timed now t s (u ∷ q) e quiet armed = elim (Bool-cases (is_paused s)) [
    | inl paused ↦
        let kept = update_current_turn-kept now t s in
        let same = update_current_turn-paused now t s paused in
        record { quiet = rw (kept.1, same) quiet; armed = rw (kept.0, same) (inl (quiet paused)) }
    | inr runs ↦
        let kept = update_current_turn-kept now t s in
        let armed_for = update_current_turn-running now t s u q e runs in
        record {
          quiet = rw (kept.1) (λ p. cc);
          armed =
              rw (kept.0, armed_for) (inr (u, waits-armed u (now + t) s.turn_timer, inr (q, e)));
        }
  ]

  Waits-mono :
      (handlers queue queue' : List ℕ)
      → ((u : ℕ) (rest : List ℕ)
          → queue ≡ u ∷ rest
          → (queue' ≡ []) ⊎ ((rest' : List ℕ) × (queue' ≡ u ∷ rest')))
      → (queue ≡ [] → queue' ≡ [])
      → Waits handlers queue
      → Waits handlers queue'
  Waits-mono handlers queue queue' f g (inl e) = inl e
  Waits-mono handlers queue queue' f g (inr (u, e, inl n)) = inr (u, e, inl (g n))
  Waits-mono handlers queue queue' f g (inr (u, e, inr (rest, n))) = inr (u, e, f u rest n)

  erase_behind :
      (u p v : ℕ) (q rest : List ℕ)
      → index_of u q ≡ some (suc p)
      → q ≡ v ∷ rest
      → erase u q ≡ v ∷ erase u rest
  erase_behind u p v q rest h e = rw e (front u p v rest (rw e at h))
    where
      front :
          (u p v : ℕ) (rest : List ℕ)
          → index_of u (v ∷ rest) ≡ some (suc p)
          → erase u (v ∷ rest) ≡ v ∷ erase u rest
      front u p v rest h = ground arith

  suc_not_zero : (p : ℕ) → (suc p == 0) ≡ false
  suc_not_zero p = ground arith

  settle-Timed :
      (now u p : ℕ) (s : TurnController Timer)
      → index_of u s.turn_queue ≡ some p
      → Timed s
      → Timed (settle api now u p (without api now u p s))
  settle-Timed now u zero s h m =
      update_current_turn-Timed now s.turn_time (without api now u zero s) (erase u s.turn_queue)
        refl m.quiet
        (λ e. Waits-mono _ s.turn_queue (erase u s.turn_queue) (λ v rest n. inl e) (λ n. e) m.armed)
  settle-Timed now u (suc p) s h m = rw (suc_not_zero p) (record {
    quiet = m.quiet;
    armed =
        Waits-mono _ s.turn_queue (erase u s.turn_queue)
          (λ v rest n. inr (erase u rest, erase_behind u p v s.turn_queue rest h n)) (λ n. rw n)
          m.armed;
  })

  pub remove_user-Timed :
      (now u : ℕ) (s t : TurnController Timer) {b : Bool}
      → WellPlaced s
      → Timed s
      → remove_user api now u s ≡ some (t, b)
      → Timed t
  remove_user-Timed now u s t w m r = elim (Option-cases (index_of u s.turn_queue)) [
    | inl e ↦ subst Timed (cc (remove_user-absent api now u s w e)) m
    | inr (p, e) ↦
        subst Timed (cc (remove_user-queued api now u p s w e)) (settle-Timed now u p s e m)
  ]

  removal-Timed :
      (now u : ℕ) (s t : TurnController Timer)
      → WellPlaced s
      → Timed s
      → (remove_user api now u s >>= λ r. some r.0) ≡ some t
      → Timed t
  removal-Timed now u s t w m r =
      let (a, found, e) = >>=-eq-some (remove_user api now u s) (λ r. some r.0) r in
      subst Timed (cc) (remove_user-Timed now u s a.0 {b = a.1} w m found)

  first_place : (u : ℕ) (q : List ℕ) → q ≡ [] → (length (q ++ u ∷ []) - 1 == 0) ≡ true
  first_place u q e = rw e refl

  later_place : (u x : ℕ) (q rest : List ℕ) → q ≡ x ∷ rest → (length (q ++ u ∷ []) - 1 == 0) ≡ false
  later_place u x q rest e = rw e (ground (arith, length-append rest (u ∷ [])))

  joined-Timed :
      (now u : ℕ) (s : TurnController Timer) (q : List ℕ)
      → s.turn_queue ≡ q
      → Timed s
      → Timed (
          if length (s.turn_queue ++ u ∷ []) - 1 == 0
          then update_current_turn api now s.turn_time (joined api u s)
          else notify
              (user_added (s.turn_queue ++ u ∷ []) (get_time_remaining api now (joined api u s)))
              (joined api u s))
  joined-Timed now u s [] e m = rw (first_place u s.turn_queue e) (
      update_current_turn-Timed now s.turn_time (joined api u s) (u ∷ []) (simp e) m.quiet
        (λ n. cc))
  joined-Timed now u s (x ∷ q) e m = rw (later_place u x s.turn_queue q e) (record {
    quiet = m.quiet;
    armed =
        Waits-mono _ s.turn_queue (s.turn_queue ++ u ∷ []) (λ v rest n. inr (rest ++ u ∷ [], rw n))
          (λ n. cc) m.armed;
  })

  pub request_turn-Timed :
      (now u : ℕ) (s : TurnController Timer) (q : List ℕ)
      → s.turn_queue ≡ q
      → Timed s
      → Timed (request_turn api now u s).0
  unfolding request_turn
  request_turn-Timed now u s q e m = elim (Option-cases (s.position u)) [
    | inr (p, taken) ↦ rw (taken, request_turn) m
    | inl free ↦ rw (free, request_turn) (joined-Timed now u s q e m)
  ]

  pub pause_turn_timer-paused :
      (now : ℕ) (s : TurnController Timer) → is_paused (pause_turn_timer api now s) ≡ true
  unfolding pause_turn_timer
  pause_turn_timer-paused now s =
      let t = record s { turn_timer = cancel s.turn_timer; paused_time = some _ } in
      ap (λ (k : Option ℕ). elim k as (λ r. Bool) [ none ↦ false | some x ↦ true ])
        (update_current_turn-kept now _ t).1

  pub pause_turn_timer-Timed :
      (now : ℕ) (s : TurnController Timer) → Timed (pause_turn_timer api now s)
  unfolding pause_turn_timer
  pause_turn_timer-Timed now s =
      update_current_turn-Timed now _
        (record s { turn_timer = cancel s.turn_timer; paused_time = some _ }) s.turn_queue refl
        (λ p. api.waits-cancel s.turn_timer) (λ e. inl (api.waits-cancel s.turn_timer))

  pub resume_turn_timer-Timed :
      (now : ℕ) (s : TurnController Timer) → Timed s → Timed (resume_turn_timer api now s)
  unfolding resume_turn_timer
  resume_turn_timer-Timed now s m = elim (Option-cases s.paused_time) [
    | inl e ↦ rw (e, resume_turn_timer) m
    | inr (kept, e) ↦
        rw (e, resume_turn_timer)
          (update_current_turn-Timed now _ (record s { paused_time = none }) s.turn_queue refl
            (λ p. cc) (λ n. m.armed))
  ]

  pub clear-Timed : (s : TurnController Timer) (q : List ℕ) → s.turn_queue ≡ q → Timed (clear api s)
  unfolding clear
  clear-Timed s [] e =
      rw (e, clear)
        (record {
          quiet = λ p. api.waits-cancel s.turn_timer;
          armed = inl (api.waits-cancel s.turn_timer);
        })
  clear-Timed s (u ∷ q) e =
      rw (e, clear)
        (record {
          quiet = λ p. api.waits-cancel s.turn_timer;
          armed = inl (api.waits-cancel s.turn_timer);
        })

  -- `EndCurrentTurn` returns only if nobody is queued, and then does nothing.
  pub end_current_turn-same :
      (now : ℕ) (s t : TurnController Timer) (q : List ℕ)
      → s.turn_queue ≡ q
      → WellPlaced s
      → end_current_turn api now s ≡ some t
      → s ≡ t
  unfolding end_current_turn
  end_current_turn-same now s t [] e w r = ground (arith, e, r)
  end_current_turn-same now s t (u ∷ q) e w r =
      let faults : end_current_turn api now s ≡ none =
        rw (e, end_current_turn) (rw (front_placed api u q s e w) refl) in
      absurd (cc (sym faults ∙ r))

  pub end_current_turn-Timed :
      (now : ℕ) (s t : TurnController Timer) (q : List ℕ)
      → s.turn_queue ≡ q
      → WellPlaced s
      → Timed s
      → end_current_turn api now s ≡ some t
      → Timed t
  end_current_turn-Timed now s t q e w m r = subst Timed (end_current_turn-same now s t q e w r) m

  -- While the timer is paused no handler waits; otherwise at most one handler waits, and if anybody
  -- is queued then for the user whose turn it is. Every operation that succeeds keeps this.
  pub step-Timed :
      (now : ℕ) (op : Op) (s t : TurnController Timer)
      → WellPlaced s
      → Timed s
      → step api now op s ≡ some t
      → Timed t
  unfolding step set_turn_time
  step-Timed now (requests u) s t w m r =
      subst Timed (cc) (request_turn-Timed now u s s.turn_queue refl m)
  step-Timed now (removes u) s t w m r = removal-Timed now u s t w m r
  step-Timed now (sets_time d) s t w m r =
      subst Timed {x = set_turn_time d s} (cc) (record { quiet = m.quiet; armed = m.armed })
  step-Timed now pauses s t w m r = subst Timed (cc) (pause_turn_timer-Timed now s)
  step-Timed now resumes s t w m r = subst Timed (cc) (resume_turn_timer-Timed now s m)
  step-Timed now ends s t w m r = end_current_turn-Timed now s t s.turn_queue refl w m r
  step-Timed now clears s t w m r = subst Timed (cc) (clear-Timed s s.turn_queue refl)
  step-Timed now elapses s t w m r =
      subst Timed {x = record s { turn_timer = elapse s.turn_timer }} (cc) (record {
        quiet = λ p. api.waits-elapse s.turn_timer;
        armed = inl (api.waits-elapse s.turn_timer);
      })
