-- ===== src/Turn.antt =====
-- TurnController.hpp. A user is a number, the identity of the `TUserPtr`; `position` holds the field
-- `turn_queue_position_` of every user. `none` is a fault: `value()` of an empty optional, `erase`
-- past the end, or a reference into the queue that is no longer valid. Times and durations are nanoseconds, but for `paused_time` (milliseconds).
pub mod Positions
pub mod Placed
pub mod Queue
pub mod Fairness
pub mod Timing
pub mod Pause
mod Examples
use collab_vm_server.Base.{
  ℕ, zero, suc, ◌+◌, ◌-◌, ◌*◌, ◌/◌, ◌^◌, Bool, true, false, ◌&&◌, ◌||◌, not, Option, none, some,
  List, [], ◌∷◌, ◌++◌, ℤ, pos, negsuc, sub_ℕ, div_trunc, length, take, drop, update, ltb, ◌==◌,
  if◌then◌else◌, ◌>>=◌,
}
use collab_vm_server.Timer.{TimerApi}

-- The calls of the virtual member functions, with the queue and the milliseconds left.
pub data Notice : Type 0 where
  current_user_changed user_added user_removed : List ℕ → ℤ → Notice

pub record TurnController (Timer : Type 0) : Type 0 where
  pub turn_timer : Timer
  pub turn_time : ℕ
  pub turn_queue : List ℕ
  pub paused_time : Option ℕ
  pub position : ℕ → Option ℕ
  pub notices : List Notice

abbrev pub ns_per_ms : ℕ
ns_per_ms = 1000000

module _ {Timer : Type 0} where
  abbrev pub is_paused : TurnController Timer → Bool
  is_paused s = elim s.paused_time [ none ↦ false | some t ↦ true ]

  abbrev pub notify : Notice → TurnController Timer → TurnController Timer
  notify n s = record s { notices = s.notices ++ n ∷ [] }

  unfoldable pub get_current_user : TurnController Timer → Option ℕ
  get_current_user s = elim s.turn_queue [ [] ↦ none | u ∷ rest ↦ some u ]

  pub set_turn_time : ℕ → TurnController Timer → TurnController Timer
  set_turn_time t s = record s { turn_time = t }

-- `--` on a size_t.
abbrev pub dec_size : ℕ → ℕ
dec_size p = if p == 0 then 2 ^ 64 - 1 else p - 1

-- The loop over the users behind the removed one.
pub move_up : List ℕ → (ℕ → Option ℕ) → Option (ℕ → Option ℕ)
move_up [] position = some position
move_up (u ∷ us) position = position u >>= λ p. move_up us (update position u (some (dec_size p)))

-- The loop of `Clear`.
pub reset_all : List ℕ → (ℕ → Option ℕ) → ℕ → Option ℕ
reset_all [] position = position
reset_all (u ∷ us) position = reset_all us (update position u none)

module _ (api : TimerApi ℕ) where
  open api use {Timer, expiry, waits, expires_at, async_wait, cancel, elapse}

  pub init : Timer → TurnController Timer
  init timer = record {
    turn_timer = timer;
    turn_time = 0;
    turn_queue = [];
    paused_time = none;
    position = λ u. none;
    notices = [];
  }

  pub get_time_remaining : ℕ → TurnController Timer → ℤ
  get_time_remaining now s = div_trunc (sub_ℕ (expiry s.turn_timer) now) ns_per_ms

  pub update_current_turn : ℕ → ℕ → TurnController Timer → TurnController Timer
  update_current_turn now time_remaining s = elim s.turn_queue [
    | [] ↦ notify (current_user_changed [] (pos 0)) s
    | u ∷ rest ↦ notify (current_user_changed s.turn_queue (pos (time_remaining / ns_per_ms))) (
        if is_paused s then s else record s {
          turn_timer = async_wait u (expires_at (now + time_remaining) s.turn_timer);
        })
  ]

  pub request_turn : ℕ → ℕ → TurnController Timer → TurnController Timer × Bool
  request_turn now u s = elim (s.position u) [
    | some p ↦ (s, false)
    | none ↦
        let queue = s.turn_queue ++ u ∷ [] in
        let place = length queue - 1 in
        let t = record s { turn_queue = queue; position = update s.position u (some place) } in
        (
          if place == 0
              then update_current_turn now t.turn_time t
              else notify (user_added queue (get_time_remaining now t)) t,
          true,
        )
  ]

  -- What `RemoveUser` does once it has found the user at `p`.
  pub remove_at : ℕ → ℕ → ℕ → TurnController Timer → Option (TurnController Timer)
  remove_at now u p s =
      if ltb p (length s.turn_queue)
      then (move_up (drop (suc p) s.turn_queue) s.position >>= λ moved. moved u >>= λ old_position.
          let t = record s {
            turn_queue = take p s.turn_queue ++ drop (suc p) s.turn_queue;
            position = update moved u none;
          } in
          some (
            if old_position == 0
            then update_current_turn now t.turn_time t
            else notify (user_removed t.turn_queue (get_time_remaining now t)) t))
      else none

  pub remove_user : ℕ → ℕ → TurnController Timer → Option (TurnController Timer × Bool)
  unfolding remove_at
  remove_user now u s = elim (s.position u) [
    | none ↦ some (s, false)
    | some p ↦ remove_at now u p s >>= λ t. some (t, true)
  ]

  abbrev pub was_running : TurnController Timer → Bool
  was_running s = elim (waits s.turn_timer) [ [] ↦ false | h ∷ hs ↦ true ]

  -- The time that `PauseTurnTimer` keeps.
  abbrev pub time_to_keep : Bool → ℤ → ℕ → ℕ
  time_to_keep running (pos t) turn_time = if running && ltb 0 t then t else turn_time / ns_per_ms
  time_to_keep running (negsuc t) turn_time = turn_time / ns_per_ms

  pub pause_turn_timer : ℕ → TurnController Timer → TurnController Timer
  unfolding get_time_remaining update_current_turn
  pause_turn_timer now s =
      let kept = time_to_keep (was_running s) (get_time_remaining now s) s.turn_time in
      update_current_turn now (kept * ns_per_ms)
        (record s { turn_timer = cancel s.turn_timer; paused_time = some kept })

  pub resume_turn_timer : ℕ → TurnController Timer → TurnController Timer
  unfolding update_current_turn
  resume_turn_timer now s = elim s.paused_time [
    | none ↦ s
    | some kept ↦ update_current_turn now (kept * ns_per_ms) (record s { paused_time = none })
  ]

  -- `RemoveUser` gets a reference to the front of the queue and reads it again after `erase`, which
  -- has invalidated it, unless it has taken only the last of several users.
  pub end_current_turn : ℕ → TurnController Timer → Option (TurnController Timer)
  unfolding remove_at
  end_current_turn now s = elim s.turn_queue [
    | [] ↦ some s
    | u ∷ rest ↦ elim (s.position u) [
      | none ↦ some s
      | some p ↦ if p == 0 || ltb (suc p) (length s.turn_queue) then none else remove_at now u p s
    ]
  ]

  pub clear : TurnController Timer → TurnController Timer
  clear s =
      let t = record s { turn_timer = cancel s.turn_timer } in
      elim s.turn_queue [
        | [] ↦ t
        | u ∷ rest ↦
            notify (current_user_changed [] (pos 0))
              (record t { turn_queue = []; position = reset_all s.turn_queue s.position })
      ]
