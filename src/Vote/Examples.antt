-- ===== src/Vote/Examples.antt =====
-- VoteController.hpp: the theorems at a concrete vote.
use collab_vm_server.Base.{◌≡◌, refl, true, false, some, [], ◌∷◌}
use collab_vm_server.Timer.{plain_timer, PlainTimer}
use collab_vm_server.Vote.{
  VoteDecision, undecided, yes_vote, no_vote, voting, VoteWait, vote_over, VoteSettings,
  VoteController, add_vote,
}
use collab_vm_server.Vote.Tally.{Tally, with_ballot, add_vote-Tally}
use collab_vm_server.Channel.Users.{UserData, UserMap, find, put}
use collab_vm_server.Message.{guest}

abbrev voter : VoteDecision → UserData
voter v = record {
  username = 65 ∷ [];
  user_type = guest;
  ip_address = [];
  vote_data = record { last_vote = v; voted_amount = 1; voted_limit = false };
}

-- Two yes votes, a no vote and one that is not yet cast.
abbrev voters : UserMap
voters = (1, voter yes_vote) ∷ (2, voter no_vote) ∷ (3, voter yes_vote) ∷ (4, voter undecided) ∷ []

abbrev poll : VoteController (PlainTimer VoteWait)
poll = record {
  vote_timer = record { at = 9000; handlers = vote_over ∷ [] };
  vote_state = voting;
  yes_vote_count = 2;
  no_vote_count = 1;
}

abbrev poll_settings : VoteSettings
poll_settings = record {
  votes_enabled = true;
  vote_time = 9000;
  cooldown_time = 500;
  vote_limit = 5;
}

poll-Tally : Tally poll voters
poll-Tally = record { yes = λ e. refl; no = λ e. refl; blank = λ e. absurd (e refl) }

find_fourth : find 4 voters ≡ some (voter undecided)
unfolding find
find_fourth = refl

add_vote-Tally_example :
    let v =
      add_vote (plain_timer VoteWait) poll_settings 10 (voter undecided).vote_data false poll in
    Tally v.controller (put 4 (with_ballot v.ballot (voter undecided)) voters)
add_vote-Tally_example =
    add_vote-Tally (plain_timer VoteWait) 4 (voter undecided) voters find_fourth poll_settings 10
      false poll poll-Tally
