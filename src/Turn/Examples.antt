-- ===== src/Turn/Examples.antt =====
-- TurnController.hpp: the theorems at concrete states.
use collab_vm_server.Base.{
  ℕ, ◌≡◌, ◌≤◌, refl, none, some, List, [], ◌∷◌, ◌+◌, ◌*◌, ◌/◌, index_of, arith, inr, false,
}
use collab_vm_server.Timer.{plain_timer, PlainTimer}
use collab_vm_server.Turn.{
  TurnController, remove_user, request_turn, pause_turn_timer, resume_turn_timer, is_paused,
  ns_per_ms,
}
use collab_vm_server.Base.{update, pos}
use collab_vm_server.Turn.{user_removed}
use collab_vm_server.Turn
use collab_vm_server.Turn.Positions.{WellPlaced}
use collab_vm_server.Turn.Queue.{
  Op, requests, removes, pauses, resumes, elapses, step, run, run-line_run,
}
use collab_vm_server.Turn.Fairness.{step-fair}
use collab_vm_server.Turn.Timing.{Timed, step-Timed}
use collab_vm_server.Turn.Pause.{pause-resume}

-- Three users in the line, the first with ten seconds left of twenty.
abbrev line : TurnController (PlainTimer ℕ)
line = record {
  turn_timer = record { at = 10000000000; handlers = 5 ∷ [] };
  turn_time = 20000000000;
  turn_queue = 5 ∷ 6 ∷ 7 ∷ [];
  paused_time = none;
  position = λ u. index_of u (5 ∷ 6 ∷ 7 ∷ []);
  notices = [];
}

line-WellPlaced : WellPlaced line
line-WellPlaced = record { placed = λ u. refl; distinct = ground arith }

line-Timed : Timed (plain_timer ℕ) line
line-Timed = record { quiet = λ e. cc; armed = inr (5, refl, inr (6 ∷ 7 ∷ [], refl)) }

abbrev day : List (ℕ × Op)
day =
    (1, requests 8)
    ∷ (2, pauses)
    ∷ (3, removes 6)
    ∷ (4, resumes)
    ∷ (5, elapses)
    ∷ (5, removes 5)
    ∷ []

run-line_run_example :
    (t : TurnController (PlainTimer ℕ)) × (run (plain_timer ℕ) day line ≡ some t)
    × (t.turn_queue ≡ 7 ∷ 8 ∷ [])
    × WellPlaced t
run-line_run_example = run-line_run (plain_timer ℕ) day line line-WellPlaced

-- The last user of the line after the second one has been removed.
abbrev shorter_line : TurnController (PlainTimer ℕ)
shorter_line = record line {
  turn_queue = 5 ∷ 7 ∷ [];
  position = update (update line.position 7 (some 1)) 6 none;
  notices = user_removed (5 ∷ 7 ∷ []) (pos 9999) ∷ [];
}

shorter_step : step (plain_timer ℕ) 3 (removes 6) line ≡ some shorter_line
unfolding step Turn.remove_user Turn.remove_at Turn.move_up Turn.get_time_remaining
shorter_step = refl

step-fair_example : 1 ≤ 2
step-fair_example =
    step-fair (plain_timer ℕ) 3 (removes 6) 7 2 1 line shorter_line line-WellPlaced shorter_step
      refl refl

pauses_line : step (plain_timer ℕ) 3 pauses line ≡ some (pause_turn_timer (plain_timer ℕ) 3 line)
unfolding step
pauses_line = refl

step-Timed_example : Timed (plain_timer ℕ) (pause_turn_timer (plain_timer ℕ) 3 line)
step-Timed_example =
    step-Timed (plain_timer ℕ) 3 pauses line (pause_turn_timer (plain_timer ℕ) 3 line)
      line-WellPlaced line-Timed pauses_line

pause-resume_example :
    let t =
      resume_turn_timer
        (plain_timer ℕ)
        50000000000
        (pause_turn_timer (plain_timer ℕ) 4000000000 line) in
    (t.turn_timer.handlers ≡ 5 ∷ [])
    × (t.turn_timer.at ≡ 50000000000 + 6000000000 / ns_per_ms * ns_per_ms)
    × (t.turn_queue ≡ 5 ∷ 6 ∷ 7 ∷ [])
    × (is_paused t ≡ false)
pause-resume_example =
    pause-resume (plain_timer ℕ) 4000000000 50000000000 6000000000 5 (6 ∷ 7 ∷ []) [] 5 line refl
      refl refl (omega arith)
