-- ===== src/Vote/Tally.antt =====
-- VoteController.hpp against the ballots that the users of the channel hold (`vote_data` in
-- CollabVmServer.hpp).
use collab_vm_server.Base.{
  ℕ, ◌+◌, ◌%◌, ◌<◌, ◌≡◌, ◌≢◌, refl, Bool, true, false, none, some, [], ◌∷◌, arith, leb,
  if◌then◌else◌, length,
}
use collab_vm_server.Timer.{TimerApi}
use collab_vm_server.Vote.{
  VoteDecision, undecided, yes_vote, no_vote, UserVoteData, no_vote_data, voting, cooling_down,
  VoteWait, VoteSettings, VoteController, vote_end, u32, same_vote, add_vote, remove_vote,
  on_vote_over, on_cooldown_over,
}
use collab_vm_server.Channel.Users.{
  UserData, UserMap, find, emplace, erase, put, count_users, count-emplace, count-erase, count-put,
  count-le-length,
}

abbrev pub voted_for : VoteDecision → UserData → Bool
voted_for v d = same_vote v d.vote_data.last_vote

abbrev pub ballots : VoteDecision → UserMap → ℕ
ballots v us = count_users (voted_for v) us

-- During a vote the counters are the numbers of ballots, as a std::uint32_t holds them; at any other
-- time nobody holds a ballot.
pub record Tally {Timer : Type 0} (c : VoteController Timer) (us : UserMap) : Type 0 where
  pub yes : c.vote_state ≡ voting → c.yes_vote_count ≡ ballots yes_vote us % u32
  pub no : c.vote_state ≡ voting → c.no_vote_count ≡ ballots no_vote us % u32
  pub blank : c.vote_state ≢ voting → (ballots yes_vote us ≡ 0) × (ballots no_vote us ≡ 0)

-- A user's data with another ballot.
abbrev pub with_ballot : UserVoteData → UserData → UserData
with_ballot b d = record d { vote_data = b }

-- The last loop of `OnVoteEnd`.
abbrev pub reset_votes : UserMap → UserMap
reset_votes [] = []
reset_votes ((u, d) ∷ us) = (u, record d { vote_data = no_vote_data }) ∷ reset_votes us

ballots-reset_votes :
    (us : UserMap)
    → (ballots yes_vote (reset_votes us) ≡ 0) × (ballots no_vote (reset_votes us) ≡ 0)
ballots-reset_votes [] = (refl, refl)
ballots-reset_votes ((u, d) ∷ us) = ground (arith, ballots-reset_votes us)

module _ (api : TimerApi VoteWait) where
  open api use {Timer}

  module _ (u : ℕ) (d : UserData) (us : UserMap) (here : find u us ≡ some d) where
    -- How a changed ballot changes the two numbers.
    changed :
        (v : VoteDecision) (b : UserVoteData)
        → ballots v (put u (with_ballot b d) us) + (if voted_for v d then 1 else 0)
          ≡ ballots v us + (if same_vote v b.last_vote then 1 else 0)
    changed v b = count-put (voted_for v) u (with_ballot b d) d us here

    pub add_vote-Tally :
        (settings : VoteSettings) (now : ℕ) (voted_yes : Bool) (c : VoteController Timer)
        → Tally c us
        → let v = add_vote api settings now d.vote_data voted_yes c in
          Tally v.controller (put u (with_ballot v.ballot d) us)
    unfolding add_vote
    add_vote-Tally settings now voted_yes c t = ground (
      arith,
      count-erase (voted_for yes_vote) u d us here,
      count-erase (voted_for no_vote) u d us here,
      changed yes_vote (add_vote api settings now d.vote_data voted_yes c).ballot,
      changed no_vote (add_vote api settings now d.vote_data voted_yes c).ballot,
    )

    pub remove_vote-Tally :
        (c : VoteController Timer)
        → Tally c us
        → let v = remove_vote api d.vote_data c in
          Tally v.controller (put u (with_ballot v.ballot d) us)
    unfolding remove_vote
    remove_vote-Tally c t = ground (
      arith,
      changed yes_vote (remove_vote api d.vote_data c).ballot,
      changed no_vote (remove_vote api d.vote_data c).ballot,
    )

  -- A user who comes in has not voted.
  pub emplace-Tally :
      (u : ℕ) (d : UserData) (us : UserMap) (c : VoteController Timer)
      → find u us ≡ none
      → d.vote_data ≡ no_vote_data
      → Tally c us
      → Tally c (emplace u d us)
  emplace-Tally u d us c h e t = ground (
    arith,
    count-emplace (voted_for yes_vote) u d us h,
    count-emplace (voted_for no_vote) u d us h,
  )

  -- A user who leaves has given its ballot back.
  pub erase-Tally :
      (u : ℕ) (d : UserData) (us : UserMap) (c : VoteController Timer)
      → find u us ≡ some d
      → d.vote_data.last_vote ≡ undecided
      → Tally c us
      → Tally c (erase u us)
  erase-Tally u d us c h e t =
      ground
        (arith, count-erase (voted_for yes_vote) u d us h, count-erase (voted_for no_vote) u d us h)

  -- When a vote runs to its end the outcome is that of the ballots, ties in favour, and after the
  -- reset that follows nobody holds a ballot.
  pub on_vote_over-Tally :
      (settings : VoteSettings) (now : ℕ) (c : VoteController Timer) (us : UserMap)
      → settings.votes_enabled ≡ true
      → c.vote_state ≡ voting
      → length us < u32
      → Tally c us
      → ((on_vote_over api settings now false c).1
          ≡ vote_end (leb (ballots no_vote us) (ballots yes_vote us)))
        × Tally (on_vote_over api settings now false c).0 (reset_votes us)
  unfolding on_vote_over
  on_vote_over-Tally settings now c us enabled state small t = ground (
    arith,
    ballots-reset_votes us,
    count-le-length (voted_for yes_vote) us,
    count-le-length (voted_for no_vote) us,
  )

  pub on_cooldown_over-Tally :
      (c : VoteController Timer) (us : UserMap)
      → c.vote_state ≡ cooling_down
      → Tally c us
      → Tally (on_cooldown_over api c).0 us
  unfolding on_cooldown_over
  on_cooldown_over-Tally c us e t = ground arith

  -- A vote that is stopped leaves the ballots with the users: they count in no tally, and the next
  -- vote starts from counters that do not know of them.
  pub on_vote_over-stopped :
      (settings : VoteSettings) (now : ℕ) (c : VoteController Timer) (us : UserMap)
      → 0 < ballots yes_vote us + ballots no_vote us
      → ¬ Tally (on_vote_over api settings now true c).0 us
  unfolding on_vote_over
  on_vote_over-stopped settings now c us some_voted t = ground arith
