-- ===== src/Vote.antt =====
-- VoteController.hpp. Settings that the controller asks of `TBase` are arguments (`VoteSettings`), and
-- so is `Common::vote_limit`, which is not in this repository. The calls `OnVoteStart`, `OnVoteEnd`
-- and `OnVoteIdle` are returned as a `VoteEvent`, which Vm.antt handles. Times are nanoseconds.
pub mod Tally
mod Examples
use collab_vm_server.Base.{
  ℕ, zero, suc, ◌+◌, ◌-◌, ◌*◌, ◌/◌, ◌%◌, ◌^◌, Bool, true, false, ◌&&◌, ◌||◌, not, Option, none,
  some, ltb, leb, ◌==◌, if◌then◌else◌,
}
use collab_vm_server.Timer.{TimerApi}

pub data VoteDecision : Type 0 where
  undecided yes_vote no_vote : VoteDecision

pub record UserVoteData : Type 0 where
  pub last_vote : VoteDecision
  pub voted_amount : ℕ
  pub voted_limit : Bool

-- The default member initializers.
abbrev pub no_vote_data : UserVoteData
no_vote_data = record { last_vote = undecided; voted_amount = 0; voted_limit = false }

pub data VoteState : Type 0 where
  idle voting cooling_down : VoteState

-- The two waits on the timer.
pub data VoteWait : Type 0 where
  vote_over cooldown_over : VoteWait

pub record VoteSettings : Type 0 where
  pub votes_enabled : Bool
  pub vote_time : ℕ
  pub cooldown_time : ℕ
  pub vote_limit : ℕ

pub record VoteController (Timer : Type 0) : Type 0 where
  pub vote_timer : Timer
  pub vote_state : VoteState
  pub yes_vote_count : ℕ
  pub no_vote_count : ℕ

-- The calls of the member functions of `TBase`.
pub data VoteEvent : Type 0 where
  nothing vote_start vote_idle : VoteEvent
  vote_end : Bool → VoteEvent

abbrev pub u32 : ℕ
u32 = 4294967296

-- `++` and `--` on a std::uint32_t.
abbrev pub inc32 : ℕ → ℕ
inc32 n = (n + 1) % u32

abbrev pub dec32 : ℕ → ℕ
dec32 n = (n + (u32 - 1)) % u32

abbrev pub decision : Bool → VoteDecision
decision true = yes_vote
decision false = no_vote

abbrev pub same_vote : VoteDecision → VoteDecision → Bool
same_vote undecided undecided = true
same_vote yes_vote yes_vote = true
same_vote no_vote no_vote = true
same_vote _ _ = false

pub record Voted (Timer : Type 0) : Type 0 where
  pub controller : VoteController Timer
  pub ballot : UserVoteData
  pub counted : Bool
  pub event : VoteEvent

module _ (api : TimerApi VoteWait) where
  open api use {Timer, expiry, waits, expires_at, async_wait, cancel}

  abbrev pub is_cooling_down : VoteController Timer → Bool
  is_cooling_down c = elim c.vote_state [ cooling_down ↦ true | _ ↦ false ]

  abbrev pub is_voting : VoteController Timer → Bool
  is_voting c = elim c.vote_state [ voting ↦ true | _ ↦ false ]

  unfoldable pub get_time_remaining : ℕ → VoteController Timer → ℕ
  get_time_remaining now c =
      if is_voting c && ltb now (expiry c.vote_timer)
      then (expiry c.vote_timer - now) / 1000000
      else 0

  abbrev unchanged : UserVoteData → VoteController Timer → Voted Timer
  unchanged d c = record { controller = c; ballot = d; counted = false; event = nothing }

  -- The case `kIdle` of `AddVote`.
  unfoldable pub first_vote :
      VoteSettings → ℕ → UserVoteData → Bool → VoteController Timer → Voted Timer
  first_vote settings now d voted_yes c = if not voted_yes then unchanged d c else record {
    controller = record {
      vote_timer = async_wait vote_over (expires_at (now + settings.vote_time) c.vote_timer);
      vote_state = voting;
      yes_vote_count = 1;
      no_vote_count = 0;
    };
    ballot = record d { last_vote = decision voted_yes };
    counted = true;
    event = vote_start;
  }

  -- The counters after a vote that differs from the user's last one.
  unfoldable pub recount : VoteDecision → Bool → VoteController Timer → VoteController Timer
  recount previous voted_yes c =
      let c' =
        if voted_yes
        then record c { yes_vote_count = inc32 c.yes_vote_count }
        else record c { no_vote_count = inc32 c.no_vote_count } in
      if same_vote previous undecided
      then c'
      else (if voted_yes
          then record c' { no_vote_count = dec32 c'.no_vote_count }
          else record c' { yes_vote_count = dec32 c'.yes_vote_count })

  -- The case `kVoting` of `AddVote`.
  unfoldable pub next_vote : VoteSettings → UserVoteData → Bool → VoteController Timer → Voted Timer
  unfolding recount
  next_vote settings d voted_yes c =
      if d.voted_limit
      then unchanged (record d { voted_limit = true }) c
      else (let d' = record d { voted_amount = d.voted_amount + 1 } in
          if leb settings.vote_limit d'.voted_amount
          then unchanged (record d' { voted_limit = true }) c
          else (if same_vote d.last_vote (decision voted_yes) then unchanged d' c else record {
            controller = recount d.last_vote voted_yes c;
            ballot = record d' { last_vote = decision voted_yes };
            counted = true;
            event = nothing;
          }))

  unfoldable pub add_vote :
      VoteSettings → ℕ → UserVoteData → Bool → VoteController Timer → Voted Timer
  unfolding first_vote next_vote
  add_vote settings now d voted_yes c =
      if not settings.votes_enabled then unchanged d c else elim c.vote_state [
        | idle ↦ first_vote settings now d voted_yes c
        | voting ↦ next_vote settings d voted_yes c
        | cooling_down ↦ unchanged d c
      ]

  unfoldable pub remove_vote : UserVoteData → VoteController Timer → Voted Timer
  remove_vote d c = elim d.last_vote [
    | undecided ↦ unchanged d c
    | yes_vote ↦ record {
      controller = record c { yes_vote_count = dec32 c.yes_vote_count };
      ballot = record d { last_vote = undecided };
      counted = true;
      event = nothing;
    }
    | no_vote ↦ record {
      controller = record c { no_vote_count = dec32 c.no_vote_count };
      ballot = record d { last_vote = undecided };
      counted = true;
      event = nothing;
    }
  ]

  unfoldable pub stop_vote : VoteController Timer → VoteController Timer
  stop_vote c = record c { vote_timer = cancel c.vote_timer }

  -- The handler of the wait for the end of the vote; `ec` says that the wait was cancelled.
  unfoldable pub on_vote_over :
      VoteSettings → ℕ → Bool → VoteController Timer → VoteController Timer × VoteEvent
  on_vote_over settings now ec c =
      if ec || not settings.votes_enabled
      then (record c { vote_state = idle }, nothing)
      else (let passed = leb c.no_vote_count c.yes_vote_count in
          if settings.cooldown_time == 0
          then (record c { vote_state = idle }, vote_end passed)
          else (
            record c {
              vote_state = cooling_down;
              vote_timer =
                  async_wait cooldown_over (expires_at (now + settings.cooldown_time) c.vote_timer);
            },
            vote_end passed,
          ))

  -- The handler of the wait for the end of the cooldown, which does not look at `ec`.
  unfoldable pub on_cooldown_over : VoteController Timer → VoteController Timer × VoteEvent
  on_cooldown_over c = (record c { vote_state = idle }, vote_idle)
