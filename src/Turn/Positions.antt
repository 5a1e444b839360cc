-- ===== src/Turn/Positions.antt =====
-- TurnController.hpp: the positions that the users carry, against the queue.
use collab_vm_server.Base.{
  ℕ, zero, suc, ◌+◌, ◌<◌, ◌≡◌, refl, fun_ext, ap, ◌∙◌, Option, none, some, List, [], ◌∷◌, arith,
  length, drop, update, lt→ltb, ◌==◌, if◌then◌else◌, index_of, erase, Distinct, take-drop-eq-erase,
}
use collab_vm_server.Timer.{TimerApi}
use collab_vm_server.Turn.{
  TurnController, move_up, dec_size, notify, user_removed, get_time_remaining, update_current_turn,
  remove_at,
}

-- Every user's position is the place at which it stands in the queue, and nobody stands twice.
pub record WellPlaced {Timer : Type 0} (s : TurnController Timer) : Type 0 where
  pub placed : (u : ℕ) → s.position u ≡ index_of u s.turn_queue
  pub distinct : Distinct s.turn_queue

-- What `move_up` leaves behind when it starts at place `k`.
abbrev moved_up : ℕ → List ℕ → (ℕ → Option ℕ) → ℕ → Option ℕ
moved_up k us position u = elim (index_of u us) [ none ↦ position u | some i ↦ some (k + i) ]

moved_up-cons :
    (k x : ℕ) (us : List ℕ) (position : ℕ → Option ℕ) (u : ℕ)
    → index_of x us ≡ none
    → moved_up (suc k) us (update position x (some k)) u ≡ moved_up k (x ∷ us) position u
moved_up-cons k x us position u h = ground arith

first-place :
    (k x : ℕ) (us : List ℕ) (position : ℕ → Option ℕ)
    → ((u i : ℕ) → index_of u (x ∷ us) ≡ some i → position u ≡ some (suc (k + i)))
    → position x ≡ some (suc k)
first-place k x us position h = ground (arith, h x 0)

dec_size-suc : (k : ℕ) → dec_size (suc k) ≡ k
dec_size-suc k = ground arith

-- The places of the users behind `x` after `x` has moved up to place `k`.
rest-places :
    (k x : ℕ) (us : List ℕ) (position : ℕ → Option ℕ)
    → index_of x us ≡ none
    → ((u i : ℕ) → index_of u (x ∷ us) ≡ some i → position u ≡ some (suc (k + i)))
    → (u i : ℕ) → index_of u us ≡ some i
    → update position x (some k) u ≡ some (suc (suc k + i))
rest-places k x us position d h u i e = ground (arith, h u (suc i))

move_up-eq :
    (k : ℕ) (us : List ℕ) (position : ℕ → Option ℕ)
    → Distinct us
    → ((u i : ℕ) → index_of u us ≡ some i → position u ≡ some (suc (k + i)))
    → move_up us position ≡ some (moved_up k us position)
unfolding move_up
move_up-eq k [] position d h = refl
move_up-eq k (x ∷ us) position d h =
    rw (first-place k x us position h, dec_size-suc k)
      (move_up-eq (suc k) us (update position x (some k)) d.1 (rest-places k x us position d.0 h)
        ∙ ap some (fun_ext (λ u. moved_up-cons k x us position u d.0)))

-- The positions that the last user to be removed leaves to the others.
abbrev pub places_of : List ℕ → ℕ → Option ℕ
places_of queue u = index_of u queue

behind :
    (u p : ℕ) (queue : List ℕ)
    → Distinct queue
    → index_of u queue ≡ some p
    → (v i : ℕ) → index_of v (drop (suc p) queue) ≡ some i
    → index_of v queue ≡ some (suc (p + i))
behind u p [] d h v i e = ground arith
behind u zero (x ∷ queue) d h v i e = ground arith
behind u (suc p) (x ∷ queue) d h v i e =
    ground (arith, behind u p queue d.1, behind u p queue d.1 (ground arith) v i e)

index_of-drop_absent :
    (v n : ℕ) (queue : List ℕ) → index_of v queue ≡ none → index_of v (drop n queue) ≡ none
index_of-drop_absent v zero queue h = h
index_of-drop_absent v (suc n) [] h = refl
index_of-drop_absent v (suc n) (x ∷ queue) h = ground (arith, index_of-drop_absent v n queue)

places-after :
    (u p : ℕ) (queue : List ℕ)
    → Distinct queue
    → index_of u queue ≡ some p
    → (v : ℕ)
    → update (moved_up p (drop (suc p) queue) (places_of queue)) u none v
      ≡ index_of v (erase u queue)
places-after u p [] d h v = ground arith
places-after u zero (x ∷ queue) d h v = ground arith
places-after u (suc p) (x ∷ queue) d h v =
    ground
      (arith, places-after u p queue d.1 (ground arith) v, index_of-drop_absent v (suc p) queue)

index_of-lt : (u p : ℕ) (queue : List ℕ) → index_of u queue ≡ some p → p < length queue
index_of-lt u p [] h = ground arith
index_of-lt u zero (x ∷ queue) h = omega arith
index_of-lt u (suc p) (x ∷ queue) h = omega (arith, index_of-lt u p queue (ground arith))

Distinct-drop : (n : ℕ) (queue : List ℕ) → Distinct queue → Distinct (drop n queue)
Distinct-drop zero queue d = d
Distinct-drop (suc n) [] d = tt
Distinct-drop (suc n) (x ∷ queue) d = Distinct-drop n queue d.1

absent_behind :
    (u p : ℕ) (queue : List ℕ)
    → Distinct queue
    → index_of u queue ≡ some p
    → index_of u (drop (suc p) queue) ≡ none
absent_behind u p [] d h = ground arith
absent_behind u zero (x ∷ queue) d h = ground arith
absent_behind u (suc p) (x ∷ queue) d h = absent_behind u p queue d.1 (ground arith)

module _ (api : TimerApi ℕ) (now u p : ℕ) where
  open api use {Timer}

  -- What the last branch of `RemoveUser` makes of the state.
  abbrev pub settle : TurnController Timer → TurnController Timer
  settle t =
      if p == 0
      then update_current_turn api now t.turn_time t
      else notify (user_removed t.turn_queue (get_time_remaining api now t)) t

  abbrev pub without : TurnController Timer → TurnController Timer
  without s = record s {
    turn_queue = erase u s.turn_queue;
    position = places_of (erase u s.turn_queue);
  }

  module _ (s : TurnController Timer) (w : WellPlaced s)
      (h : index_of u s.turn_queue ≡ some p) where
    move_up-behind :
        move_up (drop (suc p) s.turn_queue) s.position
        ≡ some (moved_up p (drop (suc p) s.turn_queue) s.position)
    move_up-behind =
        move_up-eq p (drop (suc p) s.turn_queue) s.position
          (Distinct-drop (suc p) s.turn_queue w.distinct)
          (λ v i e. w.placed v ∙ behind u p s.turn_queue w.distinct h v i e)

    moved_up_self : moved_up p (drop (suc p) s.turn_queue) s.position u ≡ some p
    moved_up_self = ground (arith, w.placed u, absent_behind u p s.turn_queue w.distinct h)

    update-moved_up :
        update (moved_up p (drop (suc p) s.turn_queue) s.position) u none
        ≡ places_of (erase u s.turn_queue)
    update-moved_up =
        fun_ext λ v. ground (arith, w.placed v, places-after u p s.turn_queue w.distinct h v)

    pub remove_at-eq : remove_at api now u p s ≡ some (settle (without s))
    unfolding remove_at
    remove_at-eq = rw (
      lt→ltb p (length s.turn_queue) (index_of-lt u p s.turn_queue h),
      move_up-behind,
      moved_up_self,
      update-moved_up,
      take-drop-eq-erase u p s.turn_queue h,
    )
