-- ===== src/Vm/Invariant.antt =====
-- AdminVirtualMachine.hpp: what holds of a machine between two handlers.
use collab_vm_server.Base.{
  ℕ, ◌≡◌, refl, sym, subst, inl, inr, Bool, true, false, some, List, [], ◌∷◌, if◌then◌else◌,
  Option-cases,
}
use collab_vm_server.Timer.{TimerApi}
use collab_vm_server.Turn.{TurnController, Notice, current_user_changed, user_added, user_removed}
use collab_vm_server.Turn
use collab_vm_server.Turn.Positions.{WellPlaced}
use collab_vm_server.Turn.Timing.{
  Timed, request_turn-Timed, pause_turn_timer-Timed, resume_turn_timer-Timed,
}
use collab_vm_server.Turn.Placed.{pause_turn_timer-WellPlaced, resume_turn_timer-WellPlaced}
use collab_vm_server.Turn.Queue.{request_turn_lem}
use collab_vm_server.Vote.{VoteWait, add_vote, Voted}
use collab_vm_server.Vote.Tally.{Tally, with_ballot, add_vote-Tally}
use collab_vm_server.Message.{Message}
use collab_vm_server.Channel.{broadcast}
use collab_vm_server.Channel.Counts.{Counted, KeepsRoster-Counted}
use collab_vm_server.Channel.Users.{UserData, find, put, roster-put}
use collab_vm_server.Vm.State.{VmState, broadcast_turn_queue, handle_notices, with_turn}
use collab_vm_server.Vm.Operations.{
  State, with_vote, settings_of_vote, broadcast_vote_status, request_turn, pause_turn_timer,
  resume_turn_timer, vote,
}

-- The state with other messages sent.
abbrev pub with_sent : {T V : Type 0} → List (ℕ × Message) → VmState T V → VmState T V
with_sent ms s = record s { channel = record s.channel { sent = ms } }

-- To handle the calls of the turn controller is to send messages.
handle_notices-eq :
    {T V : Type 0} (ns : List Notice) (s : VmState T V)
    → handle_notices ns s ≡ with_sent (handle_notices ns s).channel.sent s
unfolding handle_notices broadcast_turn_queue broadcast
handle_notices-eq [] s = refl
handle_notices-eq (current_user_changed q t ∷ ns) s =
    handle_notices-eq ns (broadcast_turn_queue q t s)
handle_notices-eq (user_added q t ∷ ns) s = handle_notices-eq ns (broadcast_turn_queue q t s)
handle_notices-eq (user_removed q t ∷ ns) s = handle_notices-eq ns (broadcast_turn_queue q t s)

pub with_turn-eq :
    {T V : Type 0} (c : TurnController T) (s : VmState T V)
    → with_turn c s
      ≡ with_sent (with_turn c s).channel.sent (record s { turn = record c { notices = [] } })
unfolding with_turn
with_turn-eq c s = handle_notices-eq c.notices (record s { turn = record c { notices = [] } })

module _ (turn_api : TimerApi ℕ) (vote_api : TimerApi VoteWait) (vote_limit : ℕ) where
  -- The turn queue agrees with its users' positions, the turn timer waits for nobody while it is paused
  -- and otherwise, if anybody is queued, at most for the current user, the channel's map and count
  -- agree, and so do the ballots and the vote counters.
  pub record VmInv (s : State turn_api vote_api vote_limit) : Type 0 where
    pub placed : WellPlaced s.turn
    pub timed : Timed turn_api s.turn
    pub counted : Counted s.channel
    pub tally : Tally s.vote s.channel.users

  pub with_sent-VmInv :
      (ms : List (ℕ × Message)) (s : State turn_api vote_api vote_limit)
      → VmInv s
      → VmInv (with_sent ms s)
  with_sent-VmInv ms s v = record {
    placed = v.placed;
    timed = v.timed;
    counted = record { distinct = v.counted.distinct; admins = v.counted.admins };
    tally = v.tally;
  }

  pub with_turn-VmInv :
      (c : TurnController turn_api.Timer) (s : State turn_api vote_api vote_limit)
      → WellPlaced c
      → Timed turn_api c
      → VmInv s
      → VmInv (with_turn c s)
  with_turn-VmInv c s w m v = subst VmInv (sym (with_turn-eq c s)) (
      with_sent-VmInv (with_turn c s).channel.sent (record s { turn = record c { notices = [] } })
        (record {
          placed = record { placed = w.placed; distinct = w.distinct };
          timed = record { quiet = m.quiet; armed = m.armed };
          counted = v.counted;
          tally = v.tally;
        }))

  pub if-VmInv :
      (b : Bool) (s t : State turn_api vote_api vote_limit)
      → VmInv s
      → VmInv t
      → VmInv (if b then s else t)
  if-VmInv true s t v w = v
  if-VmInv false s t v w = w

  pub request_turn-VmInv :
      (now u : ℕ) (s : State turn_api vote_api vote_limit)
      → VmInv s
      → VmInv (request_turn turn_api vote_api vote_limit now u s)
  unfolding request_turn
  request_turn-VmInv now u s v =
      if-VmInv s.settings.turns_enabled _ s
        (with_turn-VmInv (Turn.request_turn turn_api now u s.turn).0 s
          (request_turn_lem turn_api now u s.turn v.placed).2
          (request_turn-Timed turn_api now u s.turn s.turn.turn_queue refl v.timed) v)
        v

  pub pause_turn_timer-VmInv :
      (now : ℕ) (s : State turn_api vote_api vote_limit)
      → VmInv s
      → VmInv (pause_turn_timer turn_api vote_api vote_limit now s)
  unfolding pause_turn_timer
  pause_turn_timer-VmInv now s v =
      if-VmInv s.settings.turns_enabled _ s
        (with_turn-VmInv (Turn.pause_turn_timer turn_api now s.turn) s
          (pause_turn_timer-WellPlaced turn_api now s.turn v.placed)
          (pause_turn_timer-Timed turn_api now s.turn) v)
        v

  pub resume_turn_timer-VmInv :
      (now : ℕ) (s : State turn_api vote_api vote_limit)
      → VmInv s
      → VmInv (resume_turn_timer turn_api vote_api vote_limit now s)
  unfolding resume_turn_timer
  resume_turn_timer-VmInv now s v =
      if-VmInv s.settings.turns_enabled _ s
        (with_turn-VmInv (Turn.resume_turn_timer turn_api now s.turn) s
          (resume_turn_timer-WellPlaced turn_api now s.turn v.placed)
          (resume_turn_timer-Timed turn_api now s.turn v.timed) v)
        v

  -- A ballot that is changed together with the counters.
  pub with_vote-VmInv :
      (u : ℕ) (d : UserData) (w : Voted vote_api.Timer) (s : State turn_api vote_api vote_limit)
      → find u s.channel.users ≡ some d
      → Tally w.controller (put u (with_ballot w.ballot d) s.channel.users)
      → VmInv s
      → VmInv (with_vote turn_api vote_api vote_limit u d w s)
  with_vote-VmInv u d w s h t v = record {
    placed = v.placed;
    timed = v.timed;
    counted =
        KeepsRoster-Counted {c = s.channel}
          (record {
            roster_eq = roster-put u (with_ballot w.ballot d) d s.channel.users h refl;
            count_eq = refl;
            id_eq = refl;
          })
          v.counted;
    tally = t;
  }

  pub announce-VmInv :
      (now : ℕ) (counted : Bool) (s : State turn_api vote_api vote_limit)
      → VmInv s
      → VmInv (if counted then broadcast_vote_status turn_api vote_api vote_limit now s else s)
  unfolding broadcast
  announce-VmInv now counted s v = if-VmInv counted _ s (with_sent-VmInv _ s v) v

  pub vote-VmInv :
      (now u : ℕ) (voted_yes : Bool) (s : State turn_api vote_api vote_limit)
      → VmInv s
      → VmInv (vote turn_api vote_api vote_limit now u voted_yes s)
  unfolding vote
  vote-VmInv now u voted_yes s v = elim (Option-cases (find u s.channel.users)) [
    | inl e ↦ simp (e, vote) v
    | inr (d, e) ↦
        let settings = settings_of_vote turn_api vote_api vote_limit s in
        let w = add_vote vote_api settings now d.vote_data voted_yes s.vote in
        simp (e, vote)
          (announce-VmInv now w.counted (with_vote turn_api vote_api vote_limit u d w s) (
            with_vote-VmInv u d w s e
              (add_vote-Tally vote_api u d s.channel.users e settings now voted_yes s.vote v.tally)
              v))
  ]
