-- ===== src/Vm/Leaving.antt =====
-- AdminVirtualMachine.hpp and UserChannel.hpp: a user joins or leaves a machine, and a turn ends.
use collab_vm_server.Base.{
  >>=-eq-some, inl, ℕ, ◌≡◌, refl, sym, ap, ◌∙◌, subst, Bool, true, false, ◌&&◌, ◌||◌, none, some,
  [], arith, if◌then◌else◌, ◌>>=◌, index_of, erase, index_of-erase_self, ==_refl, Distinct,
}
use collab_vm_server.Timer.{TimerApi}
use collab_vm_server.Turn.{TurnController}
use collab_vm_server.Turn
use collab_vm_server.Turn.Positions.{WellPlaced}
use collab_vm_server.Turn.Timing.{Timed, remove_user-Timed, end_current_turn-same}
use collab_vm_server.Turn.Queue.{remove_user_lem}
use collab_vm_server.Vote.{VoteWait, undecided, remove_vote, Voted}
use collab_vm_server.Vote.Tally.{Tally, with_ballot, remove_vote-Tally, erase-Tally}
use collab_vm_server.Channel.{ChannelBase, broadcast}
use collab_vm_server.Channel.Counts.{
  Counted, KeepsRoster, discounted, removed, remove_user-Counted, keys-roster,
}
use collab_vm_server.Channel.Users.{
  UserData, find, put, roster-put, find-put, find-erase, erase as erase_user,
}
use collab_vm_server.Vm.State.{with_turn, has_current_turn, is_channel_admin}
use collab_vm_server.Vm.Operations.{
  State, vm_base, remove_user, on_remove_user, return_ballot, end_current_turn, turn_timer_elapses,
  turn_timer_done,
}
use collab_vm_server.Vm.Invariant.{VmInv, with_sent, with_turn-eq, with_turn-VmInv}

module _ (turn_api : TimerApi ℕ) (vote_api : TimerApi VoteWait) (vote_limit : ℕ) where
  abbrev S : Type 0
  S = State turn_api vote_api vote_limit

  abbrev Inv : S → Type 0
  Inv s = VmInv turn_api vote_api vote_limit s

  -- The current turn is ended at the wish of the user `u`, which returns only if nobody is queued.
  pub end_current_turn-VmInv :
      (now u : ℕ) (s t : S)
      → end_current_turn turn_api vote_api vote_limit now u s ≡ some t
      → Inv s
      → Inv t
  unfolding end_current_turn
  end_current_turn-VmInv now u s t e v =
      allowed (s.settings.turns_enabled && (has_current_turn u s || is_channel_admin u s)) e
    where
      allowed :
          (b : Bool)
          → (if b
              then (Turn.end_current_turn turn_api now s.turn >>= λ c. some (with_turn c s))
              else some s)
            ≡ some t
          → Inv t
      allowed false e = subst Inv (cc) v
      allowed true e =
          let (c, returns, q) =
            >>=-eq-some (Turn.end_current_turn turn_api now s.turn) (λ c. some (with_turn c s)) e in
          let same =
            end_current_turn-same turn_api now s.turn c s.turn.turn_queue refl v.placed returns in
          subst Inv {x = with_turn c s} (cc) (
            with_turn-VmInv turn_api vote_api vote_limit c s (subst WellPlaced same v.placed)
              (subst (Timed turn_api) same v.timed) v)

  -- The turn timer runs out.
  pub turn_timer_elapses-VmInv :
      (s : S) → Inv s → Inv (turn_timer_elapses turn_api vote_api vote_limit s)
  unfolding turn_timer_elapses
  turn_timer_elapses-VmInv s v = record {
    placed = record { placed = v.placed.placed; distinct = v.placed.distinct };
    timed = record {
      quiet = λ p. turn_api.waits-elapse s.turn.turn_timer;
      armed = inl (turn_api.waits-elapse s.turn.turn_timer);
    };
    counted = v.counted;
    tally = v.tally;
  }

  -- Its handler does not fault, whoever it is for.
  pub turn_timer_done-VmInv :
      (now u : ℕ) (s : S)
      → Inv s
      → (t : S) × (turn_timer_done turn_api vote_api vote_limit now u s ≡ some t) × Inv t
  unfolding turn_timer_done
  turn_timer_done-VmInv now u s v =
      let (c, e, q, w) = remove_user_lem turn_api now u s.turn v.placed in
      (
        with_turn c s,
        rw e refl,
        with_turn-VmInv turn_api vote_api vote_limit c s w
            (remove_user-Timed turn_api now u s.turn c v.placed v.timed e) v,
      )

  -- What giving a ballot back changes.
  return_ballot_lem :
      (now u : ℕ) (d : UserData) (z : S)
      → find u z.channel.users ≡ some d
      → let w = remove_vote vote_api d.vote_data z.vote in
        let t = return_ballot turn_api vote_api vote_limit now u z in
        (t.turn ≡ z.turn)
        × (t.vote ≡ w.controller)
        × (t.channel.users ≡ put u (with_ballot w.ballot d) z.channel.users)
        × (t.channel.admins_count ≡ z.channel.admins_count)
        × (t.channel.id ≡ z.channel.id)
  unfolding return_ballot broadcast
  return_ballot_lem now u d z h = ground (arith, h)

  remove_vote-undecided :
      (d : UserData) (z : S)
      → (remove_vote vote_api d.vote_data z.vote).ballot.last_vote ≡ undecided
  unfolding remove_vote
  remove_vote-undecided d z = ground arith

  module _ (now u : ℕ) (d : UserData) (s : S) (here : find u s.channel.users ≡ some d)
      (v : Inv s) where
    -- The state that the callback is called in, and the ones it passes through.
    abbrev called : S
    called = record s { channel = discounted d s.channel }

    abbrev turned : TurnController turn_api.Timer → S
    turned c = with_turn c called

    turned-eq :
        (c : TurnController turn_api.Timer)
        → turned c
          ≡ with_sent (turned c).channel.sent (record called { turn = record c { notices = [] } })
    turned-eq c = with_turn-eq c called

    abbrev returned : TurnController turn_api.Timer → S
    returned c = return_ballot turn_api vote_api vote_limit now u (turned c)

    abbrev ballot_back : Voted vote_api.Timer
    ballot_back = remove_vote vote_api d.vote_data s.vote

    returned_lem :
        (c : TurnController turn_api.Timer)
        → ((returned c).turn ≡ record c { notices = [] })
          × ((returned c).vote ≡ ballot_back.controller)
          × ((returned c).channel.users ≡ put u (with_ballot ballot_back.ballot d) s.channel.users)
          × ((returned c).channel.admins_count ≡ (discounted d s.channel).admins_count)
          × ((returned c).channel.id ≡ s.channel.id)
    returned_lem c = rw (turned-eq c) (
        return_ballot_lem now u d
          (with_sent (turned c).channel.sent (record called { turn = record c { notices = [] } }))
          here)

    returned-KeepsRoster :
        (c : TurnController turn_api.Timer)
        → KeepsRoster (discounted d s.channel) (returned c).channel
    returned-KeepsRoster c =
        let facts = returned_lem c in
        record {
          roster_eq =
              rw (facts.2)
                (roster-put u (with_ballot ballot_back.ballot d) d s.channel.users here refl);
          count_eq = facts.3;
          id_eq = facts.4;
        }

    gone-Tally :
        (c : TurnController turn_api.Timer)
        → Tally (returned c).vote (erase_user u (returned c).channel.users)
    gone-Tally c =
        let facts = returned_lem c in
        let d' = with_ballot ballot_back.ballot d in
        let users = put u d' s.channel.users in
        rw (facts.1, facts.2)
          (erase-Tally vote_api u d' users ballot_back.controller
            (find-put u u d' d s.channel.users here ∙ rw (==_refl u)) (remove_vote-undecided d s)
            (remove_vote-Tally vote_api u d s.channel.users here s.vote v.tally))

    called-returned :
        (c : TurnController turn_api.Timer) {b : Bool}
        → Turn.remove_user turn_api now u s.turn ≡ some (c, b)
        → on_remove_user turn_api vote_api vote_limit now u called ≡ some (returned c)
    unfolding on_remove_user
    called-returned c e = rw e

    abbrev base : ChannelBase S
    base = vm_base turn_api vote_api vote_limit [] now

    -- The machine once the user is out of the map.
    abbrev gone : TurnController turn_api.Timer → S
    gone c = removed base (λ c s. refl) u d (returned c)

    gone-users :
        (c : TurnController turn_api.Timer)
        → (gone c).channel.users ≡ erase_user u (returned c).channel.users
    unfolding broadcast
    gone-users c = refl

    gone-absent :
        (c : TurnController turn_api.Timer)
        → Counted (gone c).channel
        → find u (gone c).channel.users ≡ none
    gone-absent c k =
        let facts = returned_lem c in
        let keep = returned-KeepsRoster c in
        rw (gone-users c) (
          find-erase u u (returned c).channel.users (
            subst Distinct
              (sym (keys-roster s.channel.users (returned c).channel.users keep.roster_eq))
              v.counted.distinct)
          ∙ rw (==_refl u))

    gone-VmInv :
        (c : TurnController turn_api.Timer)
        → WellPlaced c
        → Timed turn_api c
        → Counted (gone c).channel
        → Inv (gone c)
    gone-VmInv c w m k =
        let facts = returned_lem c in
        let quiet = record c { notices = [] } in
        record {
          placed =
              subst WellPlaced {x = quiet} (sym (facts.0))
                (record { placed = w.placed; distinct = w.distinct });
          timed =
              subst (Timed turn_api) {x = quiet} (sym (facts.0))
                (record { quiet = m.quiet; armed = m.armed });
          counted = k;
          tally = rw (gone-users c) (gone-Tally c);
        }

  -- A user who is in the channel leaves: the handler does not fault and keeps the invariant. The user
  -- is no longer in the channel nor in the turn queue, and all other queued users keep their order.
  pub remove_user-VmInv :
      (now u : ℕ) (d : UserData) (s : S)
      → find u s.channel.users ≡ some d
      → Inv s
      → (t : S) × (remove_user turn_api vote_api vote_limit now u s ≡ some t)
        × Inv t
        × (find u t.channel.users ≡ none)
        × (t.turn.turn_queue ≡ erase u s.turn.turn_queue)
        × (index_of u t.turn.turn_queue ≡ none)
  unfolding remove_user
  remove_user-VmInv now u d s here v =
      let (c, e, q, w) = remove_user_lem turn_api now u s.turn v.placed in
      let (r, k, keys_left) =
        remove_user-Counted (base now u d s here v) (λ c s. refl) u d s
          (returned now u d s here v c) here (called-returned now u d s here v c e)
          (returned-KeepsRoster now u d s here v c) v.counted in
      let m = remove_user-Timed turn_api now u s.turn c v.placed v.timed e in
      let line =
        ap (λ (x : TurnController turn_api.Timer). x.turn_queue)
          ((returned_lem now u d s here v c).0)
        ∙ q in
      (
        gone now u d s here v c,
        r,
        gone-VmInv now u d s here v c w m k,
        gone-absent now u d s here v c k,
        line,
        rw line (index_of-erase_self u s.turn.turn_queue v.placed.distinct),
      )
