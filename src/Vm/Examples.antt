-- ===== src/Vm/Examples.antt =====
-- AdminVirtualMachine.hpp: the theorems at a concrete machine.
use collab_vm_server.Base.{
  ℕ, ◌≡◌, refl, true, false, none, some, [], ◌∷◌, arith, index_of, erase, inr,
}
use collab_vm_server.Timer.{plain_timer}
use collab_vm_server.Vote.{VoteWait, vote_over, voting, no_vote_data, yes_vote}
use collab_vm_server.Message.{UserType, guest, admin}
use collab_vm_server.Channel.Users.{UserData, find, is_admin}
use collab_vm_server.Vm.Settings.{vnc}
use collab_vm_server.Vm.State.{
  Command, command, stop, on_start, on_stop, on_connect_delay, read_instruction,
}
use collab_vm_server.Vm.Operations.{State, remove_user, request_turn, pause_turn_timer, vote}
use collab_vm_server.Vm.Invariant.{VmInv}
use collab_vm_server.Vm.Leaving.{remove_user-VmInv}
use collab_vm_server.Vm.Reach.{here, next, requests, votes, VmReach-VmInv}
use collab_vm_server.Vm.Control.{control-revoked}
use collab_vm_server.Vm.Lifecycle.{stop-final}

abbrev S : Type 0
S = State (plain_timer ℕ) (plain_timer VoteWait) 5

abbrev Inv : S → Type 0
Inv s = VmInv (plain_timer ℕ) (plain_timer VoteWait) 5 s

abbrev person : UserType → UserData
person type = record {
  username = 65 ∷ [];
  user_type = type;
  ip_address = [];
  vote_data = no_vote_data;
}

-- A guest who has the turn, an administrator who waits for it and has voted, and a guest.
abbrev machine : S
machine = record {
  turn = record {
    turn_timer = record { at = 10000000000; handlers = 1 ∷ [] };
    turn_time = 20000000000;
    turn_queue = 1 ∷ 2 ∷ [];
    paused_time = none;
    position = λ u. index_of u (1 ∷ 2 ∷ []);
    notices = [];
  };
  vote = record {
    vote_timer = record { at = 9000; handlers = vote_over ∷ [] };
    vote_state = voting;
    yes_vote_count = 1;
    no_vote_count = 0;
  };
  channel = record {
    id = 7;
    users =
        (1, person guest)
        ∷ (
          2,
          record (person admin) {
            vote_data = record { last_vote = yes_vote; voted_amount = 1; voted_limit = false };
          },
        )
        ∷ (3, person guest)
        ∷ [];
    admins_count = 1;
    sent = [];
  };
  settings = record {
    turns_enabled = true;
    turn_time = 20;
    votes_enabled = true;
    vote_time = 60;
    vote_cooldown_time = 30;
    disallow_guests = false;
    description = [];
    start_command = [];
    stop_command = [];
    restart_command = [];
    protocol = vnc;
  };
  active = true;
  connected = true;
  commands = [];
}

machine-VmInv : Inv machine
machine-VmInv = record {
  placed = record { placed = λ u. refl; distinct = ground arith };
  timed = record { quiet = λ e. cc; armed = inr (1, refl, inr (2 ∷ [], refl)) };
  counted = record { distinct = ground arith; admins = refl };
  tally = record { yes = λ e. refl; no = λ e. refl; blank = λ e. absurd (e refl) };
}

find_first : find 1 machine.channel.users ≡ some (person guest)
unfolding find
find_first = refl

remove_user-VmInv_example :
    (t : S) × (remove_user (plain_timer ℕ) (plain_timer VoteWait) 5 8 1 machine ≡ some t)
    × Inv t
    × (find 1 t.channel.users ≡ none)
    × (t.turn.turn_queue ≡ erase 1 machine.turn.turn_queue)
    × (index_of 1 t.turn.turn_queue ≡ none)
remove_user-VmInv_example =
    remove_user-VmInv (plain_timer ℕ) (plain_timer VoteWait) 5 8 1 (person guest) machine find_first
      machine-VmInv

VmReach-VmInv_example : Inv (
    vote
      (plain_timer ℕ)
      (plain_timer VoteWait)
      5
      10
      3
      false
      (request_turn (plain_timer ℕ) (plain_timer VoteWait) 5 9 3 machine))
VmReach-VmInv_example =
    VmReach-VmInv (plain_timer ℕ) (plain_timer VoteWait) 5
      (next (next here (requests 9 3)) (votes 10 3 false)) machine-VmInv

control-revoked_example :
    ((t : S) × (remove_user (plain_timer ℕ) (plain_timer VoteWait) 5 8 1 machine ≡ some t)
      × (read_instruction 1 55 t ≡ t))
    × (machine.settings.turns_enabled ≡ true
        → is_admin (person guest) ≡ false
        → let t = pause_turn_timer (plain_timer ℕ) (plain_timer VoteWait) 5 8 machine in
          read_instruction 1 55 t ≡ t)
control-revoked_example =
    control-revoked (plain_timer ℕ) (plain_timer VoteWait) 5 8 1 55 (person guest) machine
      find_first machine-VmInv

stop-final_example :
    (on_stop (stop machine)
      ≡ command Command.update_vm_info (record (stop machine) { connected = false }))
    × (on_connect_delay false (stop machine) ≡ stop machine)
    × (on_connect_delay false (on_stop (stop machine)) ≡ on_stop (stop machine))
    × (on_start (9 ∷ []) (stop machine) ≡ command Command.stop_guacamole (stop machine))
stop-final_example = stop-final machine false (9 ∷ [])
