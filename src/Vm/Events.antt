-- ===== src/Vm/Events.antt =====
-- AdminVirtualMachine.hpp: a user who joins, and the two handlers of the vote timer.
use collab_vm_server.Base.{
  ℕ, ◌<◌, ◌≡◌, refl, Bool, true, false, none, List, [], ◌∷◌, length, arith, ap, if◌then◌else◌,
  Bool-cases, inl, inr,
}
use collab_vm_server.Timer.{TimerApi}
use collab_vm_server.Turn.Positions.{WellPlaced}
use collab_vm_server.Turn.Timing.{Timed}
use collab_vm_server.Vote.{
  VoteWait, voting, cooling_down, no_vote_data, u32, on_vote_over, on_cooldown_over,
}
use collab_vm_server.Vote.Tally.{
  Tally, reset_votes, on_vote_over-Tally, on_cooldown_over-Tally, emplace-Tally,
}
use collab_vm_server.Message.{Text}
use collab_vm_server.Channel
use collab_vm_server.Channel.{Channel, ChannelBase, broadcast, insert_user}
use collab_vm_server.Channel.Counts.{
  Counted, KeepsRoster-Counted, insert_user-Counted, insert_user-users,
}
use collab_vm_server.Channel.Users.{UserData, UserMap, find, roster, is_admin}
use collab_vm_server.Vm.State.{execute_if_any, restart}
use collab_vm_server.Vm.Operations.{
  State, settings_of_vote, add_user, on_add_user, on_vote_end, handle_event, vote_timer_done,
  cooldown_timer_done,
}
use collab_vm_server.Vm.Invariant.{VmInv, announce-VmInv}

module _ (turn_api : TimerApi ℕ) (vote_api : TimerApi VoteWait) (vote_limit : ℕ) where
  abbrev S : Type 0
  S = State turn_api vote_api vote_limit

  abbrev Inv : S → Type 0
  Inv s = VmInv turn_api vote_api vote_limit s

  -- A new user joins, with no votes cast.
  pub add_user-VmInv :
      (join : List ℕ) (now u : ℕ) (d : UserData) (s : S)
      → find u s.channel.users ≡ none
      → d.vote_data ≡ no_vote_data
      → Inv s
      → Inv (add_user turn_api vote_api vote_limit join now d u s)
  unfolding add_user on_add_user Channel.add_user
  add_user-VmInv join now u d s fresh blank v =
      let told = on_add_user turn_api vote_api vote_limit join now u s in
      record {
        placed = v.placed;
        timed = v.timed;
        counted =
            insert_user-Counted d u told.channel fresh
              (record { distinct = v.counted.distinct; admins = v.counted.admins });
        tally =
            rw (insert_user-users d u told.channel)
              (emplace-Tally vote_api u d s.channel.users s.vote fresh blank v.tally);
      }

  execute-fields :
      (c : Text) (s : S)
      → let t = execute_if_any c s in
        (t.turn ≡ s.turn) × (t.vote ≡ s.vote) × (t.channel ≡ s.channel)
  execute-fields [] s = (refl, refl, refl)
  execute-fields (c ∷ cs) s = (refl, refl, refl)

  restart-fields :
      (passed : Bool) (s : S)
      → let t = if passed then restart s else s in
        (t.turn ≡ s.turn) × (t.vote ≡ s.vote) × (t.channel ≡ s.channel)
  unfolding restart
  restart-fields true s = elim (Bool-cases s.active) [
    | inl e ↦ ground (arith, execute-fields s.settings.restart_command s)
    | inr e ↦ ground arith
  ]
  restart-fields false s = (refl, refl, refl)

  roster-reset_votes : (us : UserMap) → roster (reset_votes us) ≡ roster us
  roster-reset_votes [] = refl
  roster-reset_votes ((u, d) ∷ us) = ap (◌∷◌ (u, is_admin d)) (roster-reset_votes us)

  on_vote_end-VmInv :
      (passed : Bool) (s : S)
      → WellPlaced s.turn
      → Timed turn_api s.turn
      → Counted s.channel
      → Tally s.vote (reset_votes s.channel.users)
      → Inv (on_vote_end turn_api vote_api vote_limit passed s)
  unfolding on_vote_end
  on_vote_end-VmInv passed s w m k t =
      let same = restart-fields passed s in
      record {
        placed = rw (same.0) w;
        timed = rw (same.0) m;
        counted = rw (same.2) (
            KeepsRoster-Counted {c = s.channel}
              (record {
                roster_eq = roster-reset_votes s.channel.users;
                count_eq = refl;
                id_eq = refl;
              })
              k);
        tally = rw (same.1, same.2) t;
      }

  -- The vote runs out: all ballots are counted and then given back.
  pub vote_timer_done-VmInv :
      (now : ℕ) (s : S)
      → s.settings.votes_enabled ≡ true
      → s.vote.vote_state ≡ voting
      → length s.channel.users < u32
      → Inv s
      → Inv (vote_timer_done turn_api vote_api vote_limit now false s)
  unfolding vote_timer_done handle_event
  vote_timer_done-VmInv now s enabled state small v =
      let settings = settings_of_vote turn_api vote_api vote_limit s in
      let c = (on_vote_over vote_api settings now false s.vote).0 in
      let (e, t) =
        on_vote_over-Tally vote_api settings now s.vote s.channel.users enabled state small
          v.tally in
      rw e (on_vote_end-VmInv _ (record s { vote = c }) v.placed v.timed v.counted t)

  pub cooldown_timer_done-VmInv :
      (now : ℕ) (s : S)
      → s.vote.vote_state ≡ cooling_down
      → Inv s
      → Inv (cooldown_timer_done turn_api vote_api vote_limit now s)
  unfolding cooldown_timer_done handle_event on_cooldown_over
  cooldown_timer_done-VmInv now s state v =
      announce-VmInv turn_api vote_api vote_limit now s.settings.votes_enabled
        (record s { vote = (on_cooldown_over vote_api s.vote).0 })
        (record {
          placed = v.placed;
          timed = v.timed;
          counted = v.counted;
          tally = on_cooldown_over-Tally vote_api s.vote s.channel.users state v.tally;
        })
