-- ===== src/Rooms/Reach.antt =====
-- CollabVmServer.hpp: the states that clients who join and leave bring about.
use collab_vm_server.Base.{arith, ℕ, ◌≡◌, Bool, true, false, Option, [], sym}
use collab_vm_server.Panel.Viewers.{once}
use collab_vm_server.Rooms.{RoomFlags, Rooms, connect_to_channel, leave_channels}
use collab_vm_server.Rooms.Places.{placed, RoomsInv}
use collab_vm_server.Rooms.Moves.{connect_to_channel-RoomsInv, leave_channels-RoomsInv}

-- A client that has joined nothing.
abbrev pub new_client : Bool → Bool → RoomFlags
new_client logged_in open_socket = record {
  connected_vm_id = 0;
  is_in_global_chat = false;
  is_logged_in = logged_in;
  present = open_socket;
}

pub data RoomsReach : Rooms → Type 0 where
  start :
      (logged_in open_socket : ℕ → Bool) (machines : ℕ → Option Bool)
      → RoomsReach (record {
        clients = λ c. new_client (logged_in c) (open_socket c);
        members = λ m. [];
        disallow_guests = machines;
        responses = [];
      })
  joins :
      (c m : ℕ) {s : Rooms}
      → RoomsReach s
      → (s.clients c).present ≡ true
      → RoomsReach (connect_to_channel c m s)
  leaves :
      (c : ℕ) {s : Rooms}
      → RoomsReach s
      → (s.clients c).present ≡ true
      → RoomsReach (leave_channels c s)

nowhere_yet :
    (logged_in open_socket : Bool) (m : ℕ) → once (placed (new_client logged_in open_socket) m) ≡ 0
nowhere_yet l o m = ground arith

-- As long as no machine is deleted and each request is handled to its end before the next,
-- whatever channels clients ask to join and whenever they leave: an open socket is among the users of
-- the channel of its machine and of the global chat room exactly as its flags say, once, and of no
-- other channel, and a socket that is gone is nowhere.
pub RoomsReach-RoomsInv : (s : Rooms) → RoomsReach s → RoomsInv s
RoomsReach-RoomsInv s (start l o machines) = record {
  places = λ c m. sym (nowhere_yet (l c) (o c) m);
  machine = λ c h. absurd (cc h);
}
RoomsReach-RoomsInv t (joins c m {s} r here) =
    connect_to_channel-RoomsInv c m s (RoomsReach-RoomsInv s r) here
RoomsReach-RoomsInv t (leaves c {s} r here) =
    leave_channels-RoomsInv c s (RoomsReach-RoomsInv s r) here
