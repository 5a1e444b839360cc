-- ===== src/Turn/Placed.antt =====
-- TurnController.hpp: the queue and the positions through each operation.
use collab_vm_server.Base.{
  ℕ, ◌-◌, ◌≡◌, refl, sym, ap, ◌∙◌, subst, true, false, Option, none, some, List, [], ◌∷◌, ◌++◌,
  arith, length, update, index_of, Distinct, index_of-append_absent, Distinct-append_absent,
  Distinct-erase, length-append,
}
use collab_vm_server.Timer.{TimerApi}
use collab_vm_server.Turn.{
  TurnController, reset_all, update_current_turn, request_turn, remove_user, pause_turn_timer,
  resume_turn_timer, clear,
}
use collab_vm_server.Turn.Positions.{WellPlaced, settle, without, remove_at-eq}

module _ (api : TimerApi ℕ) where
  open api use {Timer}

  -- Two states with the same queue and the same positions.
  pub record SameLine (s t : TurnController Timer) : Type 0 where
    pub queue_eq : t.turn_queue ≡ s.turn_queue
    pub position_eq : t.position ≡ s.position

  pub SameLine-WellPlaced :
      {s t : TurnController Timer} → SameLine s t → WellPlaced s → WellPlaced t
  SameLine-WellPlaced {s} {t} e w = record {
    placed = λ u.
        ap (λ (f : ℕ → Option ℕ). f u) e.position_eq
        ∙ w.placed u
        ∙ ap (index_of u) (sym e.queue_eq);
    distinct = subst Distinct (sym e.queue_eq) w.distinct;
  }

  pub update_current_turn-SameLine :
      (now time : ℕ) (s : TurnController Timer) → SameLine s (update_current_turn api now time s)
  unfolding update_current_turn
  update_current_turn-SameLine now time s = ground arith

  pub pause_turn_timer-SameLine :
      (now : ℕ) (s : TurnController Timer) → SameLine s (pause_turn_timer api now s)
  unfolding pause_turn_timer
  pause_turn_timer-SameLine now s = ground arith

  pub resume_turn_timer-SameLine :
      (now : ℕ) (s : TurnController Timer) → SameLine s (resume_turn_timer api now s)
  unfolding resume_turn_timer
  resume_turn_timer-SameLine now s = ground arith

  pub pause_turn_timer-WellPlaced :
      (now : ℕ) (s : TurnController Timer) → WellPlaced s → WellPlaced (pause_turn_timer api now s)
  pause_turn_timer-WellPlaced now s w = SameLine-WellPlaced (pause_turn_timer-SameLine now s) w

  pub resume_turn_timer-WellPlaced :
      (now : ℕ) (s : TurnController Timer) → WellPlaced s → WellPlaced (resume_turn_timer api now s)
  resume_turn_timer-WellPlaced now s w = SameLine-WellPlaced (resume_turn_timer-SameLine now s) w

  pub settle-SameLine : (now u p : ℕ) (s : TurnController Timer) → SameLine s (settle api now u p s)
  settle-SameLine now u p s = ground (arith, update_current_turn-SameLine now s.turn_time s)

  pub without-WellPlaced :
      (now u p : ℕ) (s : TurnController Timer) → WellPlaced s → WellPlaced (without api now u p s)
  without-WellPlaced now u p s w = record {
    placed = λ v. refl;
    distinct = Distinct-erase u s.turn_queue w.distinct;
  }

  pub remove_user-queued :
      (now u p : ℕ) (s : TurnController Timer)
      → WellPlaced s
      → index_of u s.turn_queue ≡ some p
      → remove_user api now u s ≡ some (settle api now u p (without api now u p s), true)
  unfolding remove_user
  remove_user-queued now u p s w h =
      rw (w.placed u ∙ h, remove_user) (rw (remove_at-eq api now u p s w h))

  pub remove_user-absent :
      (now u : ℕ) (s : TurnController Timer)
      → WellPlaced s
      → index_of u s.turn_queue ≡ none
      → remove_user api now u s ≡ some (s, false)
  unfolding remove_user
  remove_user-absent now u s w h = ground (arith, w.placed u)

  abbrev pub joined : ℕ → TurnController Timer → TurnController Timer
  joined u s = record s {
    turn_queue = s.turn_queue ++ u ∷ [];
    position = update s.position u (some (length (s.turn_queue ++ u ∷ []) - 1));
  }

  pub joined-WellPlaced :
      (u : ℕ) (s : TurnController Timer)
      → WellPlaced s
      → index_of u s.turn_queue ≡ none
      → WellPlaced (joined u s)
  joined-WellPlaced u s w h = record {
    placed = λ v. ground (
      arith,
      w.placed v,
      index_of-append_absent v u s.turn_queue,
      length-append s.turn_queue (u ∷ []),
    );
    distinct = Distinct-append_absent u s.turn_queue w.distinct h;
  }

  pub request_turn-SameLine :
      (now u : ℕ) (s : TurnController Timer)
      → s.position u ≡ none
      → SameLine (joined u s) (request_turn api now u s).0
  unfolding request_turn
  request_turn-SameLine now u s h =
      rw (h, request_turn)
        (ground (arith, update_current_turn-SameLine now s.turn_time (joined u s)))

  reset_all-eq :
      (q : List ℕ) (position : ℕ → Option ℕ) (u : ℕ)
      → reset_all q position u ≡ elim (index_of u q) [ none ↦ position u | some i ↦ none ]
  unfolding reset_all
  reset_all-eq [] position u = refl
  reset_all-eq (x ∷ q) position u = ground (arith, reset_all-eq q (update position x none) u)

  pub clear_lem :
      (s : TurnController Timer) (q : List ℕ)
      → s.turn_queue ≡ q
      → WellPlaced s
      → ((clear api s).turn_queue ≡ []) × WellPlaced (clear api s)
  unfolding clear
  clear_lem s [] e w =
      (ground arith, rw (e, clear) (record { placed = w.placed; distinct = w.distinct }))
  clear_lem s (u ∷ q) e w =
      rw (e, clear)
        (
          refl,
          record {
            placed = λ v.
                ground (arith, reset_all-eq (u ∷ q) s.position v, w.placed v, ap (index_of v) e);
            distinct = tt;
          },
        )
