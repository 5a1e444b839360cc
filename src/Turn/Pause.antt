-- ===== src/Turn/Pause.antt =====
-- TurnController.hpp: `PauseTurnTimer` and `ResumeTurnTimer`.
use collab_vm_server.Base.{
  ℕ, ◌+◌, ◌*◌, ◌/◌, ◌≤◌, ◌≡◌, refl, ap, ◌∙◌, true, false, none, some, List, [], ◌∷◌, arith, ℤ, pos,
  negsuc,
}
use collab_vm_server.Timer.{TimerApi}
use collab_vm_server.Turn.{
  TurnController, ns_per_ms, is_paused, get_time_remaining, pause_turn_timer, resume_turn_timer,
  time_to_keep, was_running,
}
use collab_vm_server.Turn.Timing.{
  Timed, update_current_turn-kept, update_current_turn-running, waits-armed, expiry-armed,
}

module _ (api : TimerApi ℕ) where
  open api use {Timer, expiry, waits, expires_at, async_wait, cancel}

  time_remaining-eq :
      (now d : ℕ) (s : TurnController Timer)
      → expiry s.turn_timer ≡ now + d
      → get_time_remaining api now s ≡ pos (d / ns_per_ms)
  unfolding get_time_remaining
  time_remaining-eq now d s e = rw e (ground arith)

  pause_turn_timer-paused_time :
      (now : ℕ) (s : TurnController Timer)
      → (pause_turn_timer api now s).paused_time
        ≡ some (time_to_keep api (was_running api s) (get_time_remaining api now s) s.turn_time)
  unfolding pause_turn_timer
  pause_turn_timer-paused_time now s =
      (update_current_turn-kept api now _
        (record s { turn_timer = cancel s.turn_timer; paused_time = some _ })).1

  pause_turn_timer-queue :
      (now : ℕ) (s : TurnController Timer) → (pause_turn_timer api now s).turn_queue ≡ s.turn_queue
  unfolding pause_turn_timer
  pause_turn_timer-queue now s =
      (update_current_turn-kept api now _
        (record s { turn_timer = cancel s.turn_timer; paused_time = some _ })).0

  resume_turn_timer-timer :
      (now kept u : ℕ) (q : List ℕ) (s : TurnController Timer)
      → s.paused_time ≡ some kept
      → s.turn_queue ≡ u ∷ q
      → (resume_turn_timer api now s).turn_timer
        ≡ async_wait u (expires_at (now + kept * ns_per_ms) s.turn_timer)
  unfolding resume_turn_timer
  resume_turn_timer-timer now kept u q s e n =
      rw (e, resume_turn_timer)
        (update_current_turn-running api now (kept * ns_per_ms) (record s { paused_time = none }) u
          q n refl)

  resume_turn_timer-kept :
      (now kept : ℕ) (s : TurnController Timer)
      → s.paused_time ≡ some kept
      → ((resume_turn_timer api now s).turn_queue ≡ s.turn_queue)
        × ((resume_turn_timer api now s).paused_time ≡ none)
  unfolding resume_turn_timer
  resume_turn_timer-kept now kept s e =
      rw (e, resume_turn_timer)
        (update_current_turn-kept api now (kept * ns_per_ms) (record s { paused_time = none }))

  kept_of_running :
      (now d h : ℕ) (hs : List ℕ) (s : TurnController Timer)
      → waits s.turn_timer ≡ h ∷ hs
      → expiry s.turn_timer ≡ now + d
      → ns_per_ms ≤ d
      → (pause_turn_timer api now s).paused_time ≡ some (d / ns_per_ms)
  kept_of_running now d h hs s w x big =
      pause_turn_timer-paused_time now s ∙ rw (time_remaining-eq now d s x) (ground arith)

  -- A running turn with `d` nanoseconds left, at least a millisecond, is paused at `now` and resumed
  -- at `later`: the timer then waits for the same user, for the whole milliseconds that were left.
  pub pause-resume :
      (now later d u : ℕ) (q hs : List ℕ) (h : ℕ) (s : TurnController Timer)
      → s.turn_queue ≡ u ∷ q
      → waits s.turn_timer ≡ h ∷ hs
      → expiry s.turn_timer ≡ now + d
      → ns_per_ms ≤ d
      → let t = resume_turn_timer api later (pause_turn_timer api now s) in
        (waits t.turn_timer ≡ u ∷ [])
        × (expiry t.turn_timer ≡ later + d / ns_per_ms * ns_per_ms)
        × (t.turn_queue ≡ u ∷ q)
        × (is_paused t ≡ false)
  pause-resume now later d u q hs h s e w x big =
      let paused = pause_turn_timer api now s in
      let kept = kept_of_running now d h hs s w x big in
      let queue = pause_turn_timer-queue now s ∙ e in
      let timer = resume_turn_timer-timer later (d / ns_per_ms) u q paused kept queue in
      let rest = resume_turn_timer-kept later (d / ns_per_ms) paused kept in
      (
        rw timer (waits-armed api u (later + d / ns_per_ms * ns_per_ms) paused.turn_timer),
        rw timer (expiry-armed api u (later + d / ns_per_ms * ns_per_ms) paused.turn_timer),
        rest.0 ∙ queue,
        rw (rest.1),
      )

  -- To pause a paused timer again drops the time that was kept: the current user gets a whole turn.
  pub pause_twice :
      (now : ℕ) (s : TurnController Timer)
      → Timed api s
      → is_paused s ≡ true
      → (pause_turn_timer api now s).paused_time ≡ some (s.turn_time / ns_per_ms)
  pause_twice now s m p =
      pause_turn_timer-paused_time now s ∙ ap some (full (get_time_remaining api now s))
    where
      full : (r : ℤ) → time_to_keep api (was_running api s) r s.turn_time ≡ s.turn_time / ns_per_ms
      full (pos t) = ground (arith, m.quiet p)
      full (negsuc t) = refl
